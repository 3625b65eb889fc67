-- ===== src/Writes/Tests.antt =====
-- One network, a chunk that is posted, patched and deleted, and the theorems at concrete inputs.
use subspace_transceiver.Prelude.{
  ℕ, ◌≡◌, refl, ap, sym, ◌∙◌, subst, inl, inr, Bool, true, false, Bool-cases, Option, Option-cases,
  none, some, some_inj, none-some, [], ◌∷◌,
}
use subspace_transceiver.Prelude.Dict
use subspace_transceiver.Prelude.Text.{Text, codes, text_eq, to_lower_case, truthy}
use subspace_transceiver.Samples.{whole}
use subspace_transceiver.Schema.{MemoryNamespace}
use subspace_transceiver.Schema.Valid.{is_valid_chunk, validate_chunk, is_source, full_confidence}
use subspace_transceiver.RateLimiter.{
  new_limiter, get_or_create, stale_count, prune, count_window, check_window, check, record_event,
}
use subspace_transceiver.Reputation.{
  add_delta, record_of, apply_decay, judged, record_score, is_blacklisted,
}
use subspace_transceiver.Ingest.{
  byte_length, note, ask_blacklist, ask_limiter, admit, check_pow, check_signature, check_rate,
  check_size, check_ingest_security,
}
use subspace_transceiver.Pow.{cached, mine_stamp, mine_loop, get_or_mine}
use subspace_transceiver.Store.{create_in_memory}
use subspace_transceiver.Store
use subspace_transceiver.Store.Entries.{entries_loro, entries-IsLoro}
use subspace_transceiver.Discovery.{new_manager, trigger_rebroadcast}
use subspace_transceiver.Epochs.{
  Calendar, Manager, current_store, ordered_epoch_ids, first_found, read_epoch, find_epoch,
}
use subspace_transceiver.Epochs
use subspace_transceiver.Prelude.Sort.{sort_by}
use subspace_transceiver.Writes.EpochStores.{
  epoch_memory_store, epoch_memory_laws, one_epoch-IsSingle,
}
use subspace_transceiver.Writes.Stores.{IsMemoryStore}
use subspace_transceiver.Writes.{
  MemoryStore, RouteError, Reply, ChunkBody, PatchBody, Config, World, chunk_of, sign_chunk,
  half_confidence, WriteSession, Sessions, last_session, pick_session, store_in, with_store,
  store_chunk, Daemon, stamp_chunk, write_chunk, validate_and_write, post_memory,
}
use subspace_transceiver.Writes.Changes.{
  find_in, find_existing, patched, index_everywhere, put_found, delete_in, delete_in_sessions,
  delete_memory, patch_found, patch_memory,
}
use subspace_transceiver.Writes.Posted.{IsPosted, post_memory-IsPosted}
use subspace_transceiver.Writes.Patched.{IsPatched, patch_memory-IsPatched}
use subspace_transceiver.Writes.Deleted.{AllSingle, SessionsWithout, delete_memory_lem}

writes : Unit {0}
unfolding new_limiter get_or_create stale_count prune count_window check_window check record_event
    add_delta record_of apply_decay judged record_score is_blacklisted byte_length note
    ask_blacklist ask_limiter admit check_pow check_signature check_rate check_size
    check_ingest_security Dict.get Dict.set text_eq to_lower_case is_valid_chunk validate_chunk
    is_source full_confidence cached mine_stamp mine_loop get_or_mine create_in_memory Store.put
    Store.get Store.schedule_save trigger_rebroadcast new_manager epoch_memory_store Epochs.put
    Epochs.get current_store ordered_epoch_ids first_found read_epoch Epochs.forget find_epoch
    sort_by chunk_of sign_chunk half_confidence last_session pick_session store_in with_store
    store_chunk stamp_chunk write_chunk validate_and_write post_memory
writes = tt

abbrev plain : Text → Text
plain s = s

abbrev any_id : Text → Bool
any_id s = true

abbrev config : Config
config = record {
  local_peer_id = codes "ann";
  agent_id = none;
  security = record {
    max_chunk_content_bytes = 10;
    max_envelope_body_bytes = 100;
    rate_limit_window_ms = 1000;
    require_signatures = false;
    require_pow = false;
    pow_bits_for_chunks = 20;
    pow_window_ms = 3_600_000;
  };
}

abbrev world : World
world = record {
  now = 5;
  new_id = codes "id";
  sign = λ c. some (codes "signed");
  fuel = 0;
  mined_at = 5;
}

abbrev body : ChunkBody
body = record {
  kind = none;
  namespace = some MemoryNamespace.skill;
  topic = some (codes "Rust" ∷ []);
  content = some (codes "hello");
  agent_id = none;
  peer_id = none;
  project = none;
  session_id = none;
  timestamp = none;
  ttl = none;
  confidence = some 1;
  network = none;
  supersedes = none;
  collection = none;
  slug = none;
  content_envelope = none;
  links = none;
  signature = none;
}

abbrev always : Calendar
always = record { duration = 1000; id_at = λ now. codes "e"; start_of = λ id. 0 }

abbrev managers : MemoryStore
managers = epoch_memory_store entries_loro always

abbrev laws : IsMemoryStore managers
laws = epoch_memory_laws entries-IsLoro always

-- A manager with one epoch.
abbrev empty_manager : Manager entries_loro
empty_manager = record {
  retain = 1;
  epochs = (codes "e", create_in_memory entries_loro) ∷ [];
  current = codes "e";
  migrating = false;
  disk = [];
  events = [];
}

unfoldable session : WriteSession managers
unfolding epoch_memory_store
session = record {
  skill = empty_manager;
  project = empty_manager;
  backlinks = [];
  discovery = new_manager none;
}

abbrev daemon : Daemon managers any_id plain whole
daemon = record {
  guard = record { limiter = new_limiter 2 1000; reputation = [] };
  stamps = [];
  sessions = (codes "net", session) ∷ [];
}

abbrev status_of : Reply → ℕ
status_of (Reply.sent status c) = status
status_of Reply.no_content = 204
status_of (Reply.failed status e) = status

created :
    status_of (post_memory managers any_id plain whole config world (some body) daemon).1 ≡ 201
unfolding writes session
created = refl

-- Of one session, each choice is that session.
get-only :
    (k network : Text) (s t : WriteSession managers)
    → Dict.get network ((k, s) ∷ []) ≡ some t
    → s ≡ t
unfolding Dict.get
get-only k network s t h = elim (Bool-cases (text_eq k network)) [
  | inl y ↦ some_inj (rw (y, Dict.get) at h)
  | inr f ↦ absurd (none-some (rw (f, Dict.get) at h))
]

pick_session-only :
    (k : Text) (s : WriteSession managers) (network : Option Text)
    (session : Text × WriteSession managers)
    → pick_session managers network ((k, s) ∷ []) ≡ some session
    → s ≡ session.1
unfolding pick_session last_session
pick_session-only k s none session h = ap (λ p. p.1) (some_inj h)
pick_session-only k s (some network) session h = elim (Bool-cases (truthy network)) [
  | inr f ↦ ap (λ p. p.1) (some_inj (rw (f, pick_session) at h))
  | inl y ↦ elim (Option-cases (Dict.get network ((k, s) ∷ []))) [
    | inl e ↦ absurd (none-some (rw (y, e, pick_session) at h))
    | inr (t, e) ↦
        get-only k network s t e ∙ ap (λ p. p.1) (some_inj (rw (y, e, pick_session) at h))
  ]
]

session-IsReady : (n : MemoryNamespace) → laws.IsReady (store_in managers n session)
unfolding session store_in epoch_memory_store ordered_epoch_ids sort_by epoch_memory_laws
session-IsReady MemoryNamespace.skill = ([], refl)
session-IsReady MemoryNamespace.project = ([], refl)

post_memory-IsPosted_example :
    let r = post_memory managers any_id plain whole config world (some body) daemon in
    IsPosted laws any_id plain whole config world (some body) daemon r.0.sessions r.1
post_memory-IsPosted_example =
    post_memory-IsPosted laws any_id plain whole config world (some body) daemon
      (λ network picked n h.
        subst (λ s. laws.IsReady (store_in managers n s))
          (pick_session-only (codes "net") session network picked h) (session-IsReady n))

-- The sessions after the chunk was posted.
abbrev posted : Sessions managers
posted = (post_memory managers any_id plain whole config world (some body) daemon).0.sessions

abbrev later : World
later = record world { now = 9; new_id = codes "id2" }

abbrev shorter : PatchBody
shorter = record { content = some (codes "hi"); confidence = none; links = none }

-- The session that the chunk was posted to.
unfoldable posted_session : WriteSession managers
posted_session = elim (Dict.get (codes "net") posted) [ none ↦ session | some s ↦ s ]

posted_lem : posted ≡ (codes "net", posted_session) ∷ []
unfolding writes session posted_session
posted_lem = refl

posted_session-IsReady : (n : MemoryNamespace) → laws.IsReady (store_in managers n posted_session)
unfolding writes session posted_session epoch_memory_laws
posted_session-IsReady MemoryNamespace.skill = ([], refl)
posted_session-IsReady MemoryNamespace.project = ([], refl)

posted-AllSingle : AllSingle laws (codes "id") posted
unfolding writes session posted_session epoch_memory_laws
posted-AllSingle = (
  (
    one_epoch-IsSingle entries-IsLoro always (codes "id") (codes "e") _ posted_session.skill refl,
    one_epoch-IsSingle entries-IsLoro always (codes "id") (codes "e") _ posted_session.project refl,
  ),
  tt,
)

patched_ok : status_of (patch_memory managers any_id later (codes "id") shorter posted).1 ≡ 200
unfolding writes session find_in find_existing patched index_everywhere put_found patch_found
    patch_memory
patched_ok = refl

patch_memory-IsPatched_example :
    let r = patch_memory managers any_id later (codes "id") shorter posted in
    IsPatched laws (codes "id") posted r.0 r.1
patch_memory-IsPatched_example =
    patch_memory-IsPatched laws any_id later (codes "id") shorter posted (λ network s n h.
      subst (λ t. laws.IsReady (store_in managers n t))
        (get-only (codes "net") network posted_session s
          (ap (Dict.get network) (sym posted_lem) ∙ h))
        (posted_session-IsReady n))

deleted_ok : status_of (delete_memory managers 9 (codes "id") posted).1 ≡ 204
unfolding writes session delete_in delete_in_sessions delete_memory Store.forget Store.tombstone_of
deleted_ok = refl

delete_memory_lem_example :
    let r = delete_memory managers 9 (codes "id") posted in
    SessionsWithout laws (codes "id") posted r.0
    × (r.1 ≡ elim (find_existing managers (codes "id") posted) [
      | none ↦ Reply.failed 404 RouteError.chunk_not_found
      | some p ↦ Reply.no_content
    ])
delete_memory_lem_example = delete_memory_lem laws 9 (codes "id") posted posted-AllSingle
