-- ===== src/Nsid.antt =====
-- packages/core/src/nsid.ts: namespaced identifiers. Where the code throws or returns null, the result is
-- `none`. The table of built-in names has its own entries only.
pub mod Segments
pub mod BuiltIn
mod Tests
use mathlib.Core.List.{reverse}
use subspace_transceiver.Prelude.{
  ℕ, suc, zero, ◌-◌, Bool, true, false, not, ◌&&◌, ◌||◌, List, [], ◌∷◌, ◌++◌, Option, none, some,
  ltb, leb, ◌==◌, length, take, drop, all, if◌then◌else◌,
}
use subspace_transceiver.Prelude.Dict
use subspace_transceiver.Prelude.Text.{Text, codes, text_eq, truthy, starts_with, split, join}

abbrev pub dot : ℕ
dot = b'.'

abbrev is_lower : ℕ → Bool
is_lower c = leb b'a' c && leb c b'z'

abbrev is_segment_unit : ℕ → Bool
is_segment_unit c = is_lower c || (leb b'0' c && leb c b'9') || c == b'-'

-- `/^[a-z][a-z0-9-]*$/` on a segment.
unfoldable pub is_valid_segment : Text → Bool
is_valid_segment [] = false
is_valid_segment (c ∷ seg) = is_lower c && all is_segment_unit seg

unfoldable pub is_valid_nsid : Text → Bool
is_valid_nsid nsid =
    if not (truthy nsid) || ltb 253 (length nsid)
    then false
    else if ltb (length (split dot nsid)) 3
    then false
    else all is_valid_segment (split dot nsid)

pub record ParsedNsid : Type 0 where
  pub nsid : Text
  pub authority : Text
  pub name : Text
  pub segments : List Text

unfoldable pub parse_nsid : Text → Option ParsedNsid
parse_nsid nsid =
    if not (is_valid_nsid nsid)
    then none
    else let segments = split dot nsid in
      some (record {
        nsid = nsid;
        authority = join dot (reverse (take 2 segments));
        name = join dot (drop 2 segments);
        segments = segments;
      })

-- `s.endsWith(suffix)`
unfoldable pub ends_with : Text → Text → Bool
ends_with s suffix =
    leb (length suffix) (length s) && text_eq (drop (length s - length suffix) s) suffix

unfoldable pub nsid_matches : Text → Text → Bool
nsid_matches nsid pattern =
    if text_eq pattern (codes "*")
    then true
    else if ends_with pattern (codes ".*")
    then (let prefix = take (length pattern - 2) pattern in
        text_eq nsid prefix || starts_with nsid (prefix ++ dot ∷ []))
    else text_eq nsid pattern

abbrev pub built_in_nsids : List (Text × Text)
built_in_nsids =
    (codes "skill", codes "net.subspace.memory.skill")
    ∷ (codes "project", codes "net.subspace.memory.project")
    ∷ (codes "context", codes "net.subspace.memory.context")
    ∷ (codes "pattern", codes "net.subspace.memory.pattern")
    ∷ (codes "result", codes "net.subspace.memory.result")
    ∷ (codes "document", codes "net.subspace.memory.document")
    ∷ (codes "schema", codes "net.subspace.schema.definition")
    ∷ (codes "thread", codes "net.subspace.memory.thread")
    ∷ (codes "blob-manifest", codes "net.subspace.blob.manifest")
    ∷ (codes "profile", codes "net.subspace.identity.profile")
    ∷ (codes "mail.envelope", codes "net.subspace.mail.envelope")
    ∷ []

unfoldable pub memory_type_to_nsid : Text → Option Text
memory_type_to_nsid kind = Dict.get kind built_in_nsids

-- The loop of `nsidToMemoryType`.
unfoldable pub find_type : Text → List (Text × Text) → Option Text
find_type nsid [] = none
find_type nsid ((kind, n) ∷ entries) = if text_eq n nsid then some kind else find_type nsid entries

unfoldable pub nsid_to_memory_type : Text → Option Text
nsid_to_memory_type nsid = find_type nsid built_in_nsids
