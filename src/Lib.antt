-- ===== src/Lib.antt =====
-- Subspace Transceiver: agents keep memory chunks in a store that peers replicate, answer queries
-- over it, guard what peers may add, and leave mail for one another at relays. This library
-- models the TypeScript core (packages/core/src), and the ingest guard, the routes of the memory
-- and the collection of garbage and epochs of the daemon (packages/daemon/src).
--
-- The files and the code they are about:
--
--   Prelude: what the components share. Lists, text (a list of UTF-16 code units, so that `===`
--     on strings is `text_eq`), the JavaScript Map as an association list in insertion order
--     (Prelude/Dict), Set (Prelude/Sets), maps of values under their own keys (Prelude/Keyed),
--     and the stable sort (Prelude/Sort).
--   Schema: the types of packages/core/src/schema.ts, MemoryChunk and MemoryQuery first of all;
--     Schema/Valid: validateChunk and createChunk of that file.
--   Query: packages/core/src/query.ts. buildOrbitFilter, resolveHeads and applyQuery are
--     build_orbit_filter, resolve_heads and apply_query.
--   RateLimiter: packages/core/src/rate-limiter.ts, one function for each method, with the method
--     record called record_event.
--   Pow: packages/core/src/pow.ts, stamps, mining and the stamp cache.
--   Reputation: packages/core/src/reputation.ts, ReputationStore with the method record called
--     record_score.
--   Ingest: checkIngestSecurity of packages/daemon/src/api.ts, which composes RateLimiter,
--     Reputation and Pow; Ingest/Overlap: the same guard cut at the import that it awaits for a
--     signed chunk, with guards that overlap.
--   Backlinks: packages/core/src/backlink-index.ts, BacklinkIndex. Uri: packages/core/src/uri.ts.
--     Nsid: packages/core/src/nsid.ts.
--   Mail/Relay, Mail/FileRelay: packages/core/src/mail-store.ts, MemoryRelayStore and
--     FileRelayStore; Mail/Boxes: the inbox and outbox stores of that file; Mail: MailEnvelope
--     and isEnvelopeExpired of packages/core/src/mail.ts.
--   Lexicon: packages/core/src/lexicon.ts, schemas, the validation of records against them and
--     the built-in schemas (Lexicon/BuiltIn); Lexicon/Registry:
--     packages/core/src/schema-registry.ts, the registries in memory and on file.
--   Store: packages/core/src/loro-store.ts, LoroMemoryStore; Store/Gc: packages/core/src/gc.ts.
--     Store/Reads, Store/Saving and Store/Gc say what the calls promise each other, and
--     Store/Entries is a document for which the laws hold.
--   Epochs: packages/core/src/loro-epoch-manager.ts; Epochs/Scheduler:
--     packages/daemon/src/gc-scheduler.ts, the collection and the rotation of those managers;
--     Epochs/Ids: packages/core/src/epoch-manager.ts, the names of the weeks and their dates.
--   Replication: packages/core/src/replication.ts, ReplicationManager, with broadcasts that
--     overlap; Replication/Chain and Replication/Waits follow what they send through every order
--     of events.
--   Bloom: packages/core/src/bloom.ts, BloomFilter.
--   Discovery: packages/core/src/discovery.ts, DiscoveryManager: what a peer announces of its
--     stores, what it indexes of the others, and whom it knows.
--   Bridge: packages/core/src/engine-bridge.ts, EngineBridge as a machine that calls, lines of
--     output, exits and timers drive; Bridge/Requests: the requests of its methods.
--   Negotiate: packages/core/src/negotiate.ts, CapabilityRegistry.
--   Routes: the routes of packages/daemon/src/api.ts that read. Routes/Graph is POST
--     /memory/graph, Routes/Merged the merging of POST /memory/query, Routes/Search POST
--     /memory/search, Routes/Sites GET /resolve/* and GET /site, Routes/Peers GET
--     /discovery/peers, Routes/Introduce the introduction of a peer to Discovery and Replication.
--   Writes: POST, PATCH and DELETE of the memory in packages/daemon/src/api.ts, over the
--     interface MemoryStore; Writes/Changes has PATCH and DELETE, Writes/Stores has its laws and
--     LoroMemoryStore as one, Writes/EpochStores has LoroEpochManager, which the sessions hold.
--
-- How they meet: Query answers for a Store; Epochs keeps one Store for each epoch and copies the
-- chunks that are alive from one to the next; Replication exports from a Store and imports into
-- it; Discovery announces the chunks of the stores in Bloom filters and stamps its manifests with
-- Pow; Routes read the stores of several networks, and a search would ask the peers whose filters
-- Discovery has indexed, but sendQuery is a stub today and a session has no peers (send_query and
-- get_peers of Routes/Search); Writes ask Ingest and Schema, stamp with Pow, put into a store,
-- and tell Backlinks and Discovery, and Ingest composes RateLimiter, Reputation and Pow.
--
-- Objects become records, and a method takes the object and returns it beside its result.
-- `Date.now()` is an argument; one call reads the clock once. Timestamps and counts are natural
-- numbers, and a comparison with a difference is written with the term moved to the other side,
-- so that nothing is cut off at 0. A confidence is a natural number of some unit, since the query
-- only compares confidences. Loops run over lists by structural recursion, so that no fuel is
-- needed, but for two. mineStamp runs until a nonce wins: mine_stamp takes fuel, one unit for
-- each nonce tried, so that any amount above a winning nonce is enough. The `while` loop of POST
-- /memory/graph is traverse, with one unit of fuel for each entry that it takes from its queue:
-- graph gives it one for the start and one for each link of a chunk, which is enough. The digits
-- of a number are printed, and the year of a day is searched, with fuel from the number and the
-- day themselves. The document of the library loro-crdt is the interface Loro, with its
-- documented behaviour in the laws IsLoro; a store writes its file as soon as the callback that
-- it leaves runs. SHA-256 is a parameter from text to text, and the arithmetic of floating-point
-- scores is the interface ScoreArith. toLowerCase is that of ASCII. byte_length computes the
-- UTF-8 length of a text from its code units.
--
-- Not modelled: the sockets, the engine process itself, the routes of the network and of
-- identities, the command line, and the errors of the file system and of the document library,
-- which are I/O or in another language; and the signatures, encryption and proofs of crypto.ts,
-- signing.ts and zkp.ts, which call cryptographic libraries.
pub mod Prelude
pub mod RateLimiter
pub mod Schema
mod Samples
pub mod Query
pub mod Mail
pub mod Pow
pub mod Reputation
pub mod Ingest
pub mod Backlinks
pub mod Uri
pub mod Nsid
pub mod Lexicon
pub mod Store
pub mod Epochs
pub mod Routes
pub mod Writes
pub mod Replication
pub mod Bloom
pub mod Bridge
pub mod Discovery
pub mod Negotiate
