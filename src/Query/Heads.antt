-- ===== src/Query/Heads.antt =====
-- What `resolveHeads` returns: one newest head for each chain.
use subspace_transceiver.Prelude.{
  ◌≤◌, ◌≡◌, ◌≢◌, refl, sym, ap, subst, ◌∙◌, Bool, true, false, not, ◌&&◌, ◌||◌, List, [], ◌∷◌,
  Option, none, some, Elem, Elem-filter, filter-Elem, arith, Bool-cases, inl, inr, ◌↔◌, any,
}
use subspace_transceiver.Prelude.Dict
use subspace_transceiver.Prelude.Sets.{includes, includes-add}
use subspace_transceiver.Prelude.Text.{Text, text_eq, text_eq_iff, text_eq_refl, truthy}
use subspace_transceiver.Schema.{MemoryChunk}
use subspace_transceiver.Query.{
  add_target, superseded_ids, head_chunks, group_key, group_heads, resolve_heads,
}
use subspace_transceiver.Query.Groups.{
  members, AreApart, pick_winners-AreApart, group_heads-IsGrouped, members-group_heads,
  pick_winners-IsWinner, winner_of_member,
}

-- Whether the chunk names the id as the one that it supersedes, with a string that is not empty.
abbrev names_target : Option Text → Text → Bool
names_target none a = false
names_target (some t) a = truthy t && text_eq t a

add_target-includes :
    (o : Option Text) (ids : List Text) (a : Text)
    → includes (add_target o ids) a ≡ names_target o a || includes ids a
add_target-includes none ids a = refl
add_target-includes (some []) ids a = refl
add_target-includes (some (t ∷ ts)) ids a = includes-add (t ∷ ts) a ids

superseded_ids-includes :
    (cs : List MemoryChunk) (ids : List Text) (a : Text)
    → includes (superseded_ids cs ids) a
      ≡ any (λ c. names_target c.supersedes a) cs || includes ids a
unfolding superseded_ids
superseded_ids-includes [] ids a = refl
superseded_ids-includes (c ∷ cs) ids a = ground (
  arith,
  superseded_ids-includes cs (add_target c.supersedes ids) a,
  add_target-includes c.supersedes ids a,
)

-- A chunk of the list that is no tombstone and that no chunk of the list supersedes. (An empty id is
-- never superseded: the code skips an empty `supersedes`.)
pub record IsHead (chunks : List MemoryChunk) (c : MemoryChunk) : Type 0 where
  pub listed : Elem c chunks
  pub alive : c.tombstone ≡ false
  pub latest : (d : MemoryChunk) → Elem d chunks → d.supersedes ≡ some c.id → c.id ≡ []

names_target_self : (a : Text) → names_target (some a) a ≡ false → a ≡ []
names_target_self [] h = refl
names_target_self (t ∷ ts) h = ground (arith, text_eq_refl (t ∷ ts))

names_target_sound :
    (o : Option Text) (a : Text) → names_target o a ≡ true → (o ≡ some a) × (a ≢ [])
names_target_sound none a h = absurd (ground arith)
names_target_sound (some []) a h = absurd (ground arith)
names_target_sound (some (t ∷ ts)) a h =
    let e = (text_eq_iff (t ∷ ts) a).0 h in (ap some e, λ p. ground arith)

names_target-any :
    (a : Text) (d : MemoryChunk) (cs : List MemoryChunk)
    → any (λ c. names_target c.supersedes a) cs ≡ false
    → Elem d cs
    → d.supersedes ≡ some a
    → a ≡ []
names_target-any a d [] h m e = absurd m
names_target-any a d (c ∷ cs) h (inl same) e =
    names_target_self a
      (subst (λ o. names_target o a ≡ false) (ap (λ x. x.supersedes) (sym same) ∙ e) (ground arith))
names_target-any a d (c ∷ cs) h (inr m) e = names_target-any a d cs (ground arith) m e

any-names_target :
    (a : Text) (cs : List MemoryChunk)
    → ((d : MemoryChunk) → Elem d cs → d.supersedes ≡ some a → a ≡ [])
    → any (λ c. names_target c.supersedes a) cs ≡ false
any-names_target a [] h = refl
any-names_target a (c ∷ cs) h = elim (Bool-cases (names_target c.supersedes a)) [
  | inl t ↦ let (e, ne) = names_target_sound c.supersedes a t in absurd (ne (h c (inl refl) e))
  | inr f ↦ rw f (any-names_target a cs (λ d m. h d (inr m)))
]

pub kept_of_IsHead :
    {chunks : List MemoryChunk} {c : MemoryChunk}
    → IsHead chunks c
    → not (includes (superseded_ids chunks []) c.id) && not c.tombstone ≡ true
unfolding includes
kept_of_IsHead {chunks} {c} h =
    ground (
      arith,
      h.alive,
      superseded_ids-includes chunks [] c.id,
      any-names_target c.id chunks h.latest,
    )

pub head_chunks_iff :
    (chunks : List MemoryChunk) (c : MemoryChunk) → Elem c (head_chunks chunks) ↔ IsHead chunks c
unfolding head_chunks includes
head_chunks_iff chunks c = (
  λ m.
      let (listed, kept) = Elem-filter _ c chunks m in
      record {
        listed = listed;
        alive = ground arith;
        latest = λ d k e.
            names_target-any c.id d chunks (ground (arith, superseded_ids-includes chunks [] c.id))
              k e;
      },
  λ h. filter-Elem _ c chunks h.listed (kept_of_IsHead h),
)

-- The groups of the heads of a list.
abbrev groups_of : List MemoryChunk → List (Text × List MemoryChunk)
groups_of chunks = group_heads (head_chunks chunks) []

members-groups_of :
    (chunks : List MemoryChunk) (k : Text) (h : MemoryChunk)
    → Elem h (members k (groups_of chunks)) ↔ (IsHead chunks h × (group_key h ≡ k))
unfolding Dict.get
members-groups_of chunks k h =
    let e = members-group_heads k (head_chunks chunks) [] in
    (
      λ m.
          let (head, key) = Elem-filter _ h (head_chunks chunks) (subst (Elem h) e m) in
          ((head_chunks_iff chunks h).0 head, (text_eq_iff (group_key h) k).0 key),
      λ (head, key). subst (Elem h) (sym e) (
          filter-Elem _ h (head_chunks chunks) ((head_chunks_iff chunks h).1 head)
            ((text_eq_iff (group_key h) k).1 key)),
    )

-- Every chunk that `resolveHeads` returns is a head of the list (listed, no tombstone, superseded by
-- no chunk of the list), and no head of its chain is newer. A chain is the chunks with one value of
-- `supersedes`, or of `id` where that is missing.
pub resolve_heads_sound :
    (chunks : List MemoryChunk) (c : MemoryChunk)
    → Elem c (resolve_heads chunks)
    → IsHead chunks c
      × ((h : MemoryChunk)
          → IsHead chunks h
          → group_key h ≡ group_key c
          → h.source.timestamp ≤ c.source.timestamp)
unfolding resolve_heads
resolve_heads_sound chunks c m =
    let w =
      pick_winners-IsWinner c (groups_of chunks) (group_heads-IsGrouped (head_chunks chunks) [] tt)
        m in
    (
      ((members-groups_of chunks (group_key c) c).0 w.listed).0,
      λ h head key. w.newest h ((members-groups_of chunks (group_key c) h).1 (head, key)),
    )

-- Every head of the list has a chunk of its own chain among those that `resolveHeads` returns, and
-- that chunk is at least as new.
pub resolve_heads_complete :
    (chunks : List MemoryChunk) (h : MemoryChunk)
    → IsHead chunks h
    → (c : MemoryChunk) × Elem c (resolve_heads chunks)
      × (group_key c ≡ group_key h)
      × (h.source.timestamp ≤ c.source.timestamp)
unfolding resolve_heads
resolve_heads_complete chunks h head =
    winner_of_member (group_key h) h (groups_of chunks)
      (group_heads-IsGrouped (head_chunks chunks) [] tt)
      ((members-groups_of chunks (group_key h) h).1 (head, refl))

-- The chunks that `resolveHeads` returns stand for different chains, pairwise.
pub resolve_heads-AreApart : (chunks : List MemoryChunk) → AreApart (resolve_heads chunks)
unfolding resolve_heads
resolve_heads-AreApart chunks =
    pick_winners-AreApart (groups_of chunks) (group_heads-IsGrouped (head_chunks chunks) [] tt)
