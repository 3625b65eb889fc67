-- ===== src/Routes/Searched.antt =====
-- What `POST /memory/search` finds.
use subspace_transceiver.Prelude.{
  ℕ, ◌≤◌, ◌≡◌, ◌↔◌, ◌⊎◌, inl, inr, List, [], ◌++◌, Option, or_else, Elem, Elem-append,
  Elem-append_left, Elem-append_right,
}
use subspace_transceiver.Prelude.Text.{Text, to_lower_case}
use subspace_transceiver.Schema.{MemoryChunk, MemoryQuery, HashcashStamp}
use subspace_transceiver.Query.{group_key}
use subspace_transceiver.Query.Heads.{IsHead, resolve_heads_sound, resolve_heads_complete}
use subspace_transceiver.Routes.{keep_new}
use subspace_transceiver.Routes.Merged.{HasId, keep_new-fresh}
use subspace_transceiver.Routes.Search.{
  SearchSession, SendQuery, local_results, network_results, merged_results, search_memory,
}
use subspace_transceiver.Routes.Hits.{IsLocal, IsAnswer, local_results_iff, network_results_iff}

-- What the search is to find: a chunk of a local store, or of the answer of a peer that is asked.
abbrev pub IsHit :
    SendQuery
    → ℕ
    → Text
    → MemoryQuery
    → Option HashcashStamp
    → List SearchSession
    → MemoryChunk
    → Type 0
IsHit send now freetext q pow sessions c =
    (s : SearchSession) × Elem s sessions
    × (IsLocal now freetext s c ⊎ IsAnswer send freetext q pow s c)

pub record IsFound (send : SendQuery) (now : ℕ) (freetext : Text) (q : MemoryQuery)
    (pow : Option HashcashStamp) (sessions : List SearchSession) (merged results : List MemoryChunk)
    : Type 0 where
  pub sound : (c : MemoryChunk) → Elem c results → IsHit send now freetext q pow sessions c
  pub heads : (c : MemoryChunk) → Elem c results → IsHead merged c
  pub present : (c : MemoryChunk) → IsHit send now freetext q pow sessions c → HasId c.id merged
  pub newest :
      (h : MemoryChunk)
      → IsHead merged h
      → (c : MemoryChunk) × Elem c results
        × (group_key c ≡ group_key h)
        × (h.source.timestamp ≤ c.source.timestamp)

module _ (send : SendQuery) (now : ℕ) (given : Option Text) (q : MemoryQuery)
    (pow : Option HashcashStamp) (sessions : List SearchSession) where
  freetext : Text
  freetext = to_lower_case (or_else given [])

  offered : List MemoryChunk
  offered = local_results now freetext sessions ++ network_results send freetext q pow sessions

  offered_iff : (c : MemoryChunk) → Elem c offered ↔ IsHit send now freetext q pow sessions c
  unfolding offered
  offered_iff c =
      let here = local_results now freetext sessions in
      let there = network_results send freetext q pow sessions in
      (
        λ m. elim (Elem-append c here there m) [
          | inl m ↦
              let (s, at, h) = (local_results_iff now freetext sessions c).0 m in (s, at, inl h)
          | inr m ↦
              let (s, at, h) = (network_results_iff send freetext q pow sessions c).0 m in
              (s, at, inr h)
        ],
        λ (s, at, h). elim h [
          | inl h ↦
              Elem-append_left c here there
                ((local_results_iff now freetext sessions c).1 (s, at, h))
          | inr h ↦
              Elem-append_right c here there
                ((network_results_iff send freetext q pow sessions c).1 (s, at, h))
        ],
      )

-- Each chunk that `POST /memory/search` sends is alive, says the text, and is listed by a store or sent by
-- a peer that was asked, and no chunk that was found supersedes it; each such chunk has its id among those
-- found; and each head of the chunks found has in the reply a chunk of its chain that is as new.
pub search_memory-IsFound :
    (send : SendQuery) (now : ℕ) (given : Option Text) (q : MemoryQuery)
    (pow : Option HashcashStamp) (sessions : List SearchSession)
    → IsFound send now
        (to_lower_case (or_else given []))
        q
        pow
        sessions
        (merged_results send now given q pow sessions)
        (search_memory send now given q pow sessions)
unfolding merged_results search_memory offered freetext
search_memory-IsFound send now given q pow sessions =
    let (apart, comes, takes) = keep_new-fresh (offered send now given q pow sessions) in
    let merged = (keep_new (offered send now given q pow sessions) ([], [])).1 in
    record {
      sound = λ c m.
          (offered_iff send now given q pow sessions c).0
            (comes c (((resolve_heads_sound merged c m).0).listed));
      heads = λ c m. (resolve_heads_sound merged c m).0;
      present = λ c h. takes c ((offered_iff send now given q pow sessions c).1 h);
      newest = λ h head. resolve_heads_complete merged h head;
    }
