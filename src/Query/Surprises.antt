-- ===== src/Query/Surprises.antt =====
-- Two inputs on which the filter, or the order of the list, decides what is returned.
use subspace_transceiver.Prelude.{
  ℕ, zero, suc, ◌≡◌, ◌≢◌, refl, sym, subst, false, [], ◌∷◌, Option, none, some, take, Elem, arith,
  inl, inr,
}
use subspace_transceiver.Prelude.Dict
use subspace_transceiver.Prelude.Sort.{sort_by}
use subspace_transceiver.Prelude.Text.{text_eq_iff}
use subspace_transceiver.Schema.{MemoryChunk, MemoryQuery}
use subspace_transceiver.Query.{
  build_orbit_filter, head_chunks, group_key, group_heads, winner, pick_winners, resolve_heads,
  is_newer, limited, apply_query,
}
use subspace_transceiver.Query.Heads.{IsHead, kept_of_IsHead}
use subspace_transceiver.Query.Matching.{Matches, build_orbit_filter_iff}

IsHead-alone :
    (c : MemoryChunk) → c.tombstone ≡ false → c.supersedes ≢ some c.id → IsHead (c ∷ []) c
IsHead-alone c alive apart = record {
  listed = inl refl;
  alive = alive;
  latest = λ d m e. absurd (elim m [
    | inl same ↦ apart (subst (λ x. x.supersedes ≡ some c.id) same e)
    | inr none_left ↦ none_left
  ]);
}

resolve_heads_alone : (c : MemoryChunk) → IsHead (c ∷ []) c → resolve_heads (c ∷ []) ≡ c ∷ []
unfolding resolve_heads head_chunks group_heads Dict.get Dict.set pick_winners winner
resolve_heads_alone c h = rw (kept_of_IsHead h) refl

take-nil : (n : ℕ) → take {A = MemoryChunk} n [] ≡ []
take-nil zero = refl
take-nil (suc n) = refl

limited_alone : (o : Option ℕ) (c : MemoryChunk) → limited o (sort_by is_newer (c ∷ [])) ≡ c ∷ []
unfolding sort_by
limited_alone none c = refl
limited_alone (some zero) c = refl
limited_alone (some (suc n)) c = ground (arith, take-nil n)

IsHead-swap : {a b c : MemoryChunk} → IsHead (a ∷ b ∷ []) c → IsHead (b ∷ a ∷ []) c
IsHead-swap {a} {b} h = record {
  listed = swap h.listed;
  alive = h.alive;
  latest = λ d m e. h.latest d (swap m) e;
}
  where
    swap : {x y z : MemoryChunk} → Elem z (x ∷ y ∷ []) → Elem z (y ∷ x ∷ [])
    swap (inl e) = inr (inl e)
    swap (inr (inl e)) = inl e
    swap (inr (inr m)) = absurd m

resolve_heads_pair :
    (a b : MemoryChunk)
    → IsHead (a ∷ b ∷ []) a
    → IsHead (a ∷ b ∷ []) b
    → group_key a ≡ group_key b
    → a.source.timestamp ≡ b.source.timestamp
    → resolve_heads (a ∷ b ∷ []) ≡ a ∷ []
unfolding resolve_heads head_chunks group_heads Dict.set Dict.get pick_winners winner
resolve_heads_pair a b ha hb key time =
    rw (kept_of_IsHead ha, kept_of_IsHead hb)
      (ground (arith, text_eq_iff (group_key a) (group_key b)))

-- A chunk that passes the filter is returned although a stored chunk supersedes it, if that one does
-- not pass the filter: the filter runs before the heads are resolved.
pub apply_query_stale :
    (now : ℕ) (q : MemoryQuery) (old new : MemoryChunk)
    → Matches now q old
    → new.supersedes ≡ some old.id
    → old.supersedes ≢ some old.id
    → build_orbit_filter now q new ≡ false
    → apply_query now (old ∷ new ∷ []) q ≡ old ∷ []
unfolding apply_query
apply_query_stale now q old new m e apart fails =
    let alone : IsHead (old ∷ []) old = IsHead-alone old m.alive apart in
    rw ((build_orbit_filter_iff now q old).1 m, fails, resolve_heads_alone old alone)
      (limited_alone q.limit old)

-- Where two heads of one chain have the same timestamp, the first in the list wins: the result
-- depends on the order of the list.
pub resolve_heads_tie :
    (a b : MemoryChunk)
    → IsHead (a ∷ b ∷ []) a
    → IsHead (a ∷ b ∷ []) b
    → group_key a ≡ group_key b
    → a.source.timestamp ≡ b.source.timestamp
    → (resolve_heads (a ∷ b ∷ []) ≡ a ∷ []) × (resolve_heads (b ∷ a ∷ []) ≡ b ∷ [])
unfolding resolve_heads
resolve_heads_tie a b ha hb key time = (
  resolve_heads_pair a b ha hb key time,
  resolve_heads_pair b a (IsHead-swap hb) (IsHead-swap ha) (sym key) (sym time),
)
