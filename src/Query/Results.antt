-- ===== src/Query/Results.antt =====
-- What a query returns: the order, the limit, and two inputs on which the order of the list or the
-- filter decides.
use subspace_transceiver.Prelude.{
  ℕ, suc, ◌≤◌, ◌≡◌, refl, sym, subst, List, Option, none, some, ltb, filter, length, length-take-le,
  Elem, Elem-filter, All, arith, ◌⊎◌, inl, inr, Bool-cases,
}
use subspace_transceiver.Prelude.Sort.{
  sort_by, IsSorted, sort_by-IsSorted, take-IsSorted, take-first, Elem-take, Elem-sort_by,
}
use subspace_transceiver.Schema.{MemoryChunk, MemoryQuery}
use subspace_transceiver.Query.{build_orbit_filter, resolve_heads, is_newer, limited, apply_query}
use subspace_transceiver.Query.Heads.{IsHead, resolve_heads_sound}
use subspace_transceiver.Query.Matching.{Matches, build_orbit_filter_iff}

abbrev pub NotNewer : MemoryChunk → MemoryChunk → Type 0
NotNewer c d = d.source.timestamp ≤ c.source.timestamp

abbrev pub IsNewestFirst : List MemoryChunk → Type 0
IsNewestFirst = IsSorted NotNewer

pub sort-IsNewestFirst : (cs : List MemoryChunk) → IsNewestFirst (sort_by is_newer cs)
sort-IsNewestFirst =
    sort_by-IsSorted is_newer NotNewer (λ c d h. ground arith) (λ c d h. ground arith)
      (λ b c d h k. omega arith)

limited-IsNewestFirst :
    (o : Option ℕ) (cs : List MemoryChunk) → IsNewestFirst cs → IsNewestFirst (limited o cs)
limited-IsNewestFirst none cs h = h
limited-IsNewestFirst (some n) cs h = elim (Bool-cases (ltb 0 n)) [
  | inl positive ↦ rw positive (take-IsSorted NotNewer n cs h)
  | inr all_of_them ↦ rw all_of_them h
]

Elem-limited :
    (h : MemoryChunk) (o : Option ℕ) (cs : List MemoryChunk) → Elem h (limited o cs) → Elem h cs
Elem-limited h none cs m = m
Elem-limited h (some n) cs m = elim (Bool-cases (ltb 0 n)) [
  | inl positive ↦ Elem-take h n cs (rw positive at m)
  | inr all_of_them ↦ rw all_of_them at m
]

limited-newest :
    (h : MemoryChunk) (o : Option ℕ) (cs : List MemoryChunk)
    → IsNewestFirst cs
    → Elem h cs
    → Elem h (limited o cs) ⊎ All (λ c. h.source.timestamp ≤ c.source.timestamp) (limited o cs)
limited-newest h none cs s m = inl m
limited-newest h (some n) cs s m = elim (Bool-cases (ltb 0 n)) [
  | inl positive ↦ rw positive (take-first NotNewer h n cs s m)
  | inr all_of_them ↦ rw all_of_them (inl m)
]

length-limited :
    (o : Option ℕ) (n : ℕ) (cs : List MemoryChunk)
    → o ≡ some (suc n)
    → length (limited o cs) ≤ suc n
length-limited o n cs e = rw e (ground (arith, length-take-le (suc n) cs))

limited-none :
    (o : Option ℕ) (cs : List MemoryChunk) → (o ≡ none) ⊎ (o ≡ some 0) → limited o cs ≡ cs
limited-none o cs (inl e) = rw e refl
limited-none o cs (inr e) = rw e refl

-- What the query selects from: the chunks that pass its filter.
abbrev pub selected : ℕ → List MemoryChunk → MemoryQuery → List MemoryChunk
selected now chunks q = filter (build_orbit_filter now q) chunks

-- The chunks that a query returns stand newest first; each one is stored, matches the query and is a
-- head among the stored chunks that match.
pub apply_query_sound :
    (now : ℕ) (chunks : List MemoryChunk) (q : MemoryQuery)
    → IsNewestFirst (apply_query now chunks q)
      × ((c : MemoryChunk)
          → Elem c (apply_query now chunks q)
          → Elem c chunks × Matches now q c × IsHead (selected now chunks q) c)
unfolding apply_query
apply_query_sound now chunks q = (
  limited-IsNewestFirst q.limit _ (sort-IsNewestFirst (resolve_heads (selected now chunks q))),
  λ c m.
      let found = (Elem-sort_by is_newer c _).0 (Elem-limited c q.limit _ m) in
      let head = (resolve_heads_sound (selected now chunks q) c found).0 in
      let (stored, passes) = Elem-filter (build_orbit_filter now q) c chunks head.listed in
      (stored, (build_orbit_filter_iff now q c).0 passes, head),
)

-- A query keeps to its limit if it is positive, and leaves out no resolved head unless every chunk
-- that it returns is at least as new; with no limit, or limit 0, it returns every resolved head.
pub apply_query_limit :
    (now : ℕ) (chunks : List MemoryChunk) (q : MemoryQuery)
    → ((n : ℕ) → q.limit ≡ some (suc n) → length (apply_query now chunks q) ≤ suc n)
      × ((h : MemoryChunk)
          → Elem h (resolve_heads (selected now chunks q))
          → Elem h (apply_query now chunks q)
            ⊎ All (λ c. h.source.timestamp ≤ c.source.timestamp) (apply_query now chunks q))
      × ((q.limit ≡ none) ⊎ (q.limit ≡ some 0)
          → (h : MemoryChunk) → Elem h (resolve_heads (selected now chunks q))
          → Elem h (apply_query now chunks q))
unfolding apply_query
apply_query_limit now chunks q =
    let found = resolve_heads (selected now chunks q) in
    (
      λ n e. length-limited q.limit n (sort_by is_newer found) e,
      λ h m.
          limited-newest h q.limit _ (sort-IsNewestFirst found)
            ((Elem-sort_by is_newer h found).1 m),
      λ o h m.
          subst (Elem h) (sym (limited-none q.limit _ o)) ((Elem-sort_by is_newer h found).1 m),
    )
