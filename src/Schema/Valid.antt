-- ===== src/Schema/Valid.antt =====
-- packages/core/src/schema.ts: memoryChunkSchema and validateChunk, on a chunk whose fields have their
-- types. The test of a UUID is the library zod's, and a parameter.
use subspace_transceiver.Prelude.{
  ℕ, ◌^◌, Bool, true, false, ◌&&◌, List, [], ◌∷◌, map, Option, none, some, ltb, leb, all,
  if◌then◌else◌, unless_given,
}
use subspace_transceiver.Prelude.Text.{Text, truthy, to_lower_case}
use subspace_transceiver.Schema.{
  MediaRef, ContentEnvelope, ContentLink, HashcashStamp, Source, MemoryChunk,
}

-- `z.number().int().positive()`
abbrev pub positive : ℕ → Bool
positive n = ltb 0 n

unfoldable pub is_media_ref : MediaRef → Bool
is_media_ref m = truthy m.uri && truthy m.mime_type && unless_given m.size positive

unfoldable pub is_content_envelope : ContentEnvelope → Bool
unfolding is_media_ref
is_content_envelope e = unless_given e.media (all is_media_ref)

unfoldable pub is_content_link : ContentLink → Bool
is_content_link l = truthy l.target && truthy l.rel

unfoldable pub is_hashcash_stamp : HashcashStamp → Bool
is_hashcash_stamp s = positive s.bits && truthy s.challenge && truthy s.nonce && truthy s.hash

unfoldable pub is_source : Source → Bool
is_source s = truthy s.agent_id && truthy s.peer_id && positive s.timestamp

-- An array with at least one element.
abbrev pub nonempty : List Text → Bool
nonempty [] = false
nonempty (x ∷ xs) = true

-- A confidence of 1, in the unit of confidences.
unfoldable pub full_confidence : ℕ
full_confidence = 2 ^ 1074

module _ (is_uuid : Text → Bool) where
  -- `memoryChunkSchema.safeParse(data).success`
  unfoldable pub is_valid_chunk : MemoryChunk → Bool
  is_valid_chunk c =
      is_uuid c.id
      && nonempty c.topic
      && truthy c.content
      && is_source c.source
      && unless_given c.ttl positive
      && leb c.confidence full_confidence
      && truthy c.network
      && leb 1 c.version
      && unless_given c.supersedes is_uuid
      && unless_given c.collection truthy
      && unless_given c.slug truthy
      && unless_given c.content_envelope is_content_envelope
      && unless_given c.links (all is_content_link)
      && unless_given c.pow is_hashcash_stamp

  -- `validateChunk`: the topics come out in lower case; `none` is the StoreError.
  unfoldable pub validate_chunk : MemoryChunk → Option MemoryChunk
  validate_chunk c =
      if is_valid_chunk c then some (record c { topic = map to_lower_case c.topic }) else none

  -- `createChunk`, with the id that `uuidv4` gives and the version where one is given.
  unfoldable pub create_chunk : Text → Option ℕ → MemoryChunk → Option MemoryChunk
  create_chunk id version input = validate_chunk (record input {
    id = id;
    version = elim version [ none ↦ 1 | some n ↦ n ];
    topic = map to_lower_case input.topic;
  })
