-- ===== src/Query/Groups.antt =====
-- The grouping of heads by chain, and the winner of a group.
use subspace_transceiver.Prelude.{
  ◌≤◌, ◌≡◌, ◌≢◌, refl, sym, ap, subst, ◌∙◌, List, [], ◌∷◌, ◌++◌, none, or_else, filter, Elem,
  All-Elem, All-of_Elem, All, All-append, arith, Bool-cases, inl, inr,
}
use mathlib.Core.List.{append-nil, append_assoc}
use subspace_transceiver.Prelude.Dict
use subspace_transceiver.Prelude.Text.{Text, text_eq, text_eq_iff}
use subspace_transceiver.Schema.{MemoryChunk}
use subspace_transceiver.Query.{group_key, group_heads, winner, pick_winners}

abbrev Groups : Type 0
Groups = List (Text × List MemoryChunk)

abbrev pub members : Text → List (Text × List MemoryChunk) → List MemoryChunk
members k groups = or_else (Dict.get k groups) []

-- Each group is not empty, its chunks have the group's key, and no key stands twice.
abbrev pub IsGrouped : List (Text × List MemoryChunk) → Type 0
IsGrouped [] = Unit
IsGrouped ((k, g) ∷ groups) =
    (g ≢ []) × All (λ h. group_key h ≡ k) g × (Dict.get k groups ≡ none) × IsGrouped groups

set-absent :
    (k j : Text) (g : List MemoryChunk) (groups : Groups)
    → j ≢ k
    → Dict.get j groups ≡ none
    → Dict.get j (Dict.set k g groups) ≡ none
set-absent k j g groups ne h = Dict.get-set_ne k j g groups (λ e. ne (sym e)) ∙ h

subst_key :
    {j k : Text} (e : j ≡ k) (g : List MemoryChunk)
    → All (λ h. group_key h ≡ k) g
    → All (λ h. group_key h ≡ j) g
subst_key e [] h = tt
subst_key e (c ∷ g) h = (h.0 ∙ sym e, subst_key e g h.1)

set-IsGrouped :
    (k : Text) (g : List MemoryChunk) (groups : Groups)
    → g ≢ []
    → All (λ h. group_key h ≡ k) g
    → IsGrouped groups
    → IsGrouped (Dict.set k g groups)
unfolding Dict.set Dict.get
set-IsGrouped k g [] ne same h = (ne, same, refl, tt)
set-IsGrouped k g ((j, old) ∷ groups) ne same h = elim (Bool-cases (text_eq j k)) [
  | inl e ↦ let p = (text_eq_iff j k).0 e in rw e (ne, subst_key p g same, h.2, h.3)
  | inr d ↦ rw d (
    h.0,
    h.1,
    set-absent k j g groups (ground (arith, text_eq_iff j k)) h.2,
    set-IsGrouped k g groups ne same h.3,
  )
]

members-IsGrouped :
    (k : Text) (groups : Groups) → IsGrouped groups → All (λ h. group_key h ≡ k) (members k groups)
unfolding Dict.get
members-IsGrouped k [] h = tt
members-IsGrouped k ((j, g) ∷ groups) h = elim (Bool-cases (text_eq j k)) [
  | inl e ↦ rw e (subst_key (sym ((text_eq_iff j k).0 e)) g h.1)
  | inr d ↦ rw d (members-IsGrouped k groups h.3)
]

append-ne-nil : (xs : List MemoryChunk) (x : MemoryChunk) → xs ++ x ∷ [] ≢ []
append-ne-nil [] x e = cc
append-ne-nil (y ∷ xs) x e = cc

-- One round of the grouping loop.
pub group_heads-IsGrouped :
    (hs : List MemoryChunk) (groups : List (Text × List MemoryChunk))
    → IsGrouped groups
    → IsGrouped (group_heads hs groups)
unfolding group_heads
group_heads-IsGrouped [] groups h = h
group_heads-IsGrouped (c ∷ hs) groups h =
    let k = group_key c in
    group_heads-IsGrouped hs _ (
      set-IsGrouped k (members k groups ++ c ∷ []) groups (append-ne-nil (members k groups) c)
        (All-append _ (members k groups) (c ∷ []) (members-IsGrouped k groups h) (refl, tt)) h)

members-set_self :
    (k j : Text) (e : j ≡ k) (c : MemoryChunk) (groups : Groups)
    → members k (Dict.set j (members j groups ++ c ∷ []) groups) ≡ members k groups ++ c ∷ []
members-set_self k j e c groups =
    rw (← e) (ap (λ o. or_else o []) (Dict.get-set_self j (members j groups ++ c ∷ []) groups))

members-set_ne :
    (k j : Text) (d : j ≢ k) (c : MemoryChunk) (groups : Groups)
    → members k (Dict.set j (members j groups ++ c ∷ []) groups) ≡ members k groups
members-set_ne k j d c groups =
    ap (λ o. or_else o []) (Dict.get-set_ne j k (members j groups ++ c ∷ []) groups d)

-- A group holds the heads with its key, in their order.
pub members-group_heads :
    (k : Text) (hs : List MemoryChunk) (groups : List (Text × List MemoryChunk))
    → members k (group_heads hs groups)
      ≡ members k groups ++ filter (λ h. text_eq (group_key h) k) hs
unfolding group_heads
members-group_heads k [] groups = sym (append-nil _)
members-group_heads k (c ∷ hs) groups =
    let pushed = Dict.set (group_key c) (members (group_key c) groups ++ c ∷ []) groups in
    members-group_heads k hs pushed ∙ elim (Bool-cases (text_eq (group_key c) k)) [
      | inl e ↦
          let p = (text_eq_iff (group_key c) k).0 e in
          rw (e, members-set_self k (group_key c) p c groups, append_assoc) refl
      | inr d ↦
          rw
            (
              d,
              members-set_ne k (group_key c) (ground (arith, text_eq_iff (group_key c) k)) c groups,
            )
            refl
    ]

winner-Elem : (c : MemoryChunk) (cs : List MemoryChunk) → Elem (winner c cs) (c ∷ cs)
unfolding winner
winner-Elem c [] = inl refl
winner-Elem c (d ∷ cs) = ground (arith, winner-Elem c cs, winner-Elem d cs)

winner-ge :
    (c : MemoryChunk) (cs : List MemoryChunk) → c.source.timestamp ≤ (winner c cs).source.timestamp
unfolding winner
winner-ge c [] = omega arith
winner-ge c (d ∷ cs) = ground (arith, winner-ge c cs, winner-ge d cs)

winner-newest :
    (c h : MemoryChunk) (cs : List MemoryChunk)
    → Elem h (c ∷ cs)
    → h.source.timestamp ≤ (winner c cs).source.timestamp
unfolding winner
winner-newest c h [] (inl e) = rw e (omega arith)
winner-newest c h [] (inr m) = absurd m
winner-newest c h (d ∷ cs) (inl e) = rw e (ground (arith, winner-ge c cs, winner-ge d cs))
winner-newest c h (d ∷ cs) (inr (inl e)) = rw e (ground (arith, winner-ge c cs, winner-ge d cs))
winner-newest c h (d ∷ cs) (inr (inr m)) =
    ground (arith, winner-newest c h cs (inr m), winner-newest d h cs (inr m))

winner-key :
    (k : Text) (c : MemoryChunk) (cs : List MemoryChunk)
    → All (λ h. group_key h ≡ k) (c ∷ cs)
    → group_key (winner c cs) ≡ k
winner-key k c cs h = All-Elem (λ x. group_key x ≡ k) (winner c cs) (c ∷ cs) h (winner-Elem c cs)

-- A chunk is the winner of the group with its key.
pub record IsWinner (c : MemoryChunk) (groups : List (Text × List MemoryChunk)) : Type 0 where
  pub listed : Elem c (members (group_key c) groups)
  pub newest :
      (h : MemoryChunk)
      → Elem h (members (group_key c) groups)
      → h.source.timestamp ≤ c.source.timestamp

members-head :
    (j k : Text) (g : List MemoryChunk) (groups : Groups) → j ≡ k → members k ((j, g) ∷ groups) ≡ g
unfolding Dict.get
members-head j k g groups e = ground (arith, text_eq_iff j k)

members-tail :
    (j k : Text) (g : List MemoryChunk) (groups : Groups)
    → k ≢ j
    → members k ((j, g) ∷ groups) ≡ members k groups
unfolding Dict.get
members-tail j k g groups d = ground (arith, text_eq_iff j k)

key-absent :
    (k : Text) (c : MemoryChunk) (groups : Groups)
    → IsGrouped groups
    → Dict.get k groups ≡ none
    → Elem c (pick_winners groups)
    → group_key c ≢ k
unfolding pick_winners Dict.get
key-absent k c [] g h m = absurd m
key-absent k c ((j, []) ∷ groups) g h m = absurd (g.0 refl)
key-absent k c ((j, d ∷ ds) ∷ groups) g h (inl e) =
    λ p. ground (arith, winner-key j d ds g.1, ap group_key e, text_eq_iff j k)
key-absent k c ((j, d ∷ ds) ∷ groups) g h (inr m) = key-absent k c groups g.3 (ground arith) m

pub pick_winners-IsWinner :
    (c : MemoryChunk) (groups : List (Text × List MemoryChunk))
    → IsGrouped groups
    → Elem c (pick_winners groups)
    → IsWinner c groups
unfolding pick_winners Dict.get
pick_winners-IsWinner c [] g m = absurd m
pick_winners-IsWinner c ((j, []) ∷ groups) g m = absurd (g.0 refl)
pick_winners-IsWinner c ((j, d ∷ ds) ∷ groups) g (inl e) =
    let group =
      members-head j (group_key (winner d ds)) (d ∷ ds) groups (sym (winner-key j d ds g.1)) in
    subst (λ x. IsWinner x ((j, d ∷ ds) ∷ groups)) (sym e)
      (record {
        listed = rw group (winner-Elem d ds);
        newest = λ h m. winner-newest d h ds (subst (Elem h) group m);
      })
pick_winners-IsWinner c ((j, d ∷ ds) ∷ groups) g (inr m) =
    let found = pick_winners-IsWinner c groups g.3 m in
    let group = members-tail j (group_key c) (d ∷ ds) groups (key-absent j c groups g.3 g.2 m) in
    record {
      listed = rw group found.listed;
      newest = λ h k. found.newest h (subst (Elem h) group k);
    }

pub winner_of_member :
    (k : Text) (h : MemoryChunk) (groups : List (Text × List MemoryChunk))
    → IsGrouped groups
    → Elem h (members k groups)
    → (c : MemoryChunk) × Elem c (pick_winners groups)
      × (group_key c ≡ k)
      × (h.source.timestamp ≤ c.source.timestamp)
unfolding pick_winners Dict.get
winner_of_member k h [] g m = absurd m
winner_of_member k h ((j, []) ∷ groups) g m = absurd (g.0 refl)
winner_of_member k h ((j, d ∷ ds) ∷ groups) g m = elim (Bool-cases (text_eq j k)) [
  | inl same ↦
      let p = (text_eq_iff j k).0 same in
      let own = subst (Elem h) (members-head j k (d ∷ ds) groups p) m in
      (winner d ds, inl refl, winner-key j d ds g.1 ∙ p, winner-newest d h ds own)
  | inr other ↦
      let rest =
        subst (Elem h) (members-tail j k (d ∷ ds) groups (λ p. ground (arith, text_eq_iff j k)))
          m in
      let (c, listed, key, newer) = winner_of_member k h groups g.3 rest in
      (c, inr listed, key, newer)
]

-- No two of the chunks stand for one chain.
abbrev pub AreApart : List MemoryChunk → Type 0
AreApart [] = Unit
AreApart (c ∷ cs) = All (λ d. group_key d ≢ group_key c) cs × AreApart cs

pub pick_winners-AreApart :
    (groups : List (Text × List MemoryChunk)) → IsGrouped groups → AreApart (pick_winners groups)
unfolding pick_winners
pick_winners-AreApart [] g = tt
pick_winners-AreApart ((k, []) ∷ groups) g = absurd (g.0 refl)
pick_winners-AreApart ((k, c ∷ cs) ∷ groups) g = (
  All-of_Elem _ (pick_winners groups)
      (λ d m e. key-absent k d groups g.3 g.2 m (e ∙ winner-key k c cs g.1)),
  pick_winners-AreApart groups g.3,
)
