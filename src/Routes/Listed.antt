-- ===== src/Routes/Listed.antt =====
-- What `GET /site/:peerId` and `GET /site/:peerId/:collection` list.
use subspace_transceiver.Prelude.{
  ℕ, ◌+◌, ◌≡◌, ◌⊎◌, ◌↔◌, inl, inr, refl, sym, ap, subst, ◌∙◌, true, false, not, ◌||◌, Bool-cases,
  List, [], ◌∷◌, Option, none, some, some_inj, Elem, Elem-append, Elem-append_left,
  Elem-append_right, arith,
}
use subspace_transceiver.Prelude.Sets.{add}
use subspace_transceiver.Prelude.Sort.{IsSorted, Elem-sort_by, sort_by-IsSorted}
use subspace_transceiver.Prelude.Text.{Text, text_eq, text_eq_iff, truthy}
use subspace_transceiver.Schema.{MemoryChunk, MemoryQuery}
use subspace_transceiver.Query.{add_target, is_newer}
use subspace_transceiver.Query.Results.{NotNewer, sort-IsNewestFirst}
use subspace_transceiver.Routes.{Reads, keep_new}
use subspace_transceiver.Routes.Merged.{HasId, keep_new-fresh}
use subspace_transceiver.Routes.Search.{SearchSession}
use subspace_transceiver.Routes.Sites.{
  stores_in, tally_site, tally_sites, text_le, get_site, peer_query, asked_of, get_collection,
}

Elem-add : (t a : Text) (xs : List Text) → Elem t (add a xs) ↔ ((t ≡ a) ⊎ Elem t xs)
unfolding add
Elem-add t a [] = (λ m. m, λ m. m)
Elem-add t a (x ∷ xs) = elim (Bool-cases (text_eq x a)) [
  | inl e ↦
      rw e (
        λ m. inr m,
        λ m. elim m [ inl same ↦ inl (same ∙ sym ((text_eq_iff x a).0 e)) | inr k ↦ k ],
      )
  | inr e ↦
      let (into, out) = Elem-add t a xs in
      rw e (
        λ m. elim m [
          | inl same ↦ inr (inl same)
          | inr k ↦ elim (into k) [ inl same ↦ inl same | inr n ↦ inr (inr n) ]
        ],
        λ m. elim m [
          | inl same ↦ inr (out (inl same))
          | inr k ↦ elim k [ inl same ↦ inl same | inr n ↦ inr (out (inr n)) ]
        ],
      )
]

Elem-add_target :
    (t : Text) (o : Option Text) (xs : List Text)
    → Elem t (add_target o xs) ↔ (((truthy t ≡ true) × (o ≡ some t)) ⊎ Elem t xs)
Elem-add_target t none xs = (λ m. inr m, λ m. elim m [ inl h ↦ cc (h.1) | inr n ↦ n ])
Elem-add_target t (some []) xs =
    (λ m. inr m, λ m. elim m [ inl h ↦ cc (h.0, ap truthy (some_inj (h.1))) | inr n ↦ n ])
Elem-add_target t (some (x ∷ a)) xs =
    let (into, out) = Elem-add t (x ∷ a) xs in
    (
      λ m. elim (into m) [ inl e ↦ inl (ap truthy e, ap some (sym e)) | inr n ↦ inr n ],
      λ m. elim m [ inl h ↦ out (inl (sym (some_inj (h.1)))) | inr n ↦ out (inr n) ],
    )

-- A chunk of the peer that is alive and in the collection.
abbrev pub IsIn : Text → Text → MemoryChunk → Type 0
IsIn peer t c =
    (c.tombstone ≡ false) × (c.source.peer_id ≡ peer) × (truthy t ≡ true) × (c.collection ≡ some t)

module _ (peer t : Text) where
  passed_over :
      (c : MemoryChunk)
      → c.tombstone || not (text_eq c.source.peer_id peer) ≡ true
      → IsIn peer t c
      → ⊥
  passed_over c e h =
      let same = (text_eq_iff c.source.peer_id peer).1 (h.1) in ground (arith, e, h.0, same)

  counted :
      (c : MemoryChunk)
      → c.tombstone || not (text_eq c.source.peer_id peer) ≡ false
      → (c.tombstone ≡ false) × (c.source.peer_id ≡ peer)
  counted c e = (ground (arith, e), (text_eq_iff c.source.peer_id peer).0 (ground (arith, e)))

  tally_site-Elem :
      (cs : List MemoryChunk) (xs : List Text) (n : ℕ)
      → Elem t ((tally_site peer cs (xs, n)).0)
        ↔ (((c : MemoryChunk) × Elem c cs × IsIn peer t c) ⊎ Elem t xs)
  unfolding tally_site
  tally_site-Elem [] xs n = (λ m. inr m, λ m. elim m [ inl h ↦ absurd (h.1) | inr k ↦ k ])
  tally_site-Elem (c ∷ cs) xs n =
      elim (Bool-cases (c.tombstone || not (text_eq c.source.peer_id peer))) [
        | inl e ↦
            let (into, out) = tally_site-Elem cs xs n in
            rw (e, tally_site)
              (
                λ m. elim (into m) [ inl (d, k, h) ↦ inl (d, inr k, h) | inr k ↦ inr k ],
                λ m. elim m [
                  | inl (d, k, h) ↦ elim k [
                    | inl same ↦ absurd (passed_over c e (subst (IsIn peer t) same h))
                    | inr n ↦ out (inl (d, n, h))
                  ]
                  | inr k ↦ out (inr k)
                ],
              )
        | inr e ↦
            let (into, out) = tally_site-Elem cs (add_target c.collection xs) (n + 1) in
            let (named, adds) = Elem-add_target t c.collection xs in
            let (alive, own) = counted c e in
            rw (e, tally_site)
              (
                λ m. elim (into m) [
                  | inl (d, k, h) ↦ inl (d, inr k, h)
                  | inr k ↦ elim (named k) [
                    | inl h ↦ inl (c, inl refl, (alive, own, h.0, h.1))
                    | inr j ↦ inr j
                  ]
                ],
                λ m. elim m [
                  | inl (d, k, h) ↦ elim k [
                    | inl same ↦
                        let here = subst (IsIn peer t) same h in
                        out (inr (adds (inl (here.2, here.3))))
                    | inr j ↦ out (inl (d, j, h))
                  ]
                  | inr k ↦ out (inr (adds (inr k)))
                ],
              )
      ]

  tally_sites-Elem :
      (stores : List Reads) (acc : List Text × ℕ)
      → Elem t ((tally_sites peer stores acc).0) ↔ (
          ((s : Reads) × (c : MemoryChunk) × Elem s stores × Elem c s.list × IsIn peer t c)
          ⊎ Elem t (acc.0))
  unfolding tally_sites
  tally_sites-Elem [] acc = (λ m. inr m, λ m. elim m [ inl h ↦ absurd (h.2) | inr k ↦ k ])
  tally_sites-Elem (s ∷ stores) (xs, n) =
      let (into, out) = tally_sites-Elem stores (tally_site peer s.list (xs, n)) in
      let (here, there) = tally_site-Elem s.list xs n in
      (
        λ m. elim (into m) [
          | inl (r, c, k, l, h) ↦ inl (r, c, inr k, l, h)
          | inr k ↦ elim (here k) [ inl (c, l, h) ↦ inl (s, c, inl refl, l, h) | inr j ↦ inr j ]
        ],
        λ m. elim m [
          | inl (r, c, k, l, h) ↦ elim k [
            | inl same ↦ out (inr (there (inl (c, subst (λ x. Elem c x.list) same l, h))))
            | inr j ↦ out (inl (r, c, j, l, h))
          ]
          | inr k ↦ out (inr (there (inr k)))
        ],
      )

-- The order of the texts is total and transitive.
text_le_total : (a b : Text) → text_le a b ≡ false → text_le b a ≡ true
unfolding text_le
text_le_total [] b h = cc h
text_le_total (x ∷ xs) [] h = refl
text_le_total (x ∷ xs) (y ∷ ys) h = ground (arith, text_le_total xs ys)

text_le_trans : (a b c : Text) → text_le a b ≡ true → text_le b c ≡ true → text_le a c ≡ true
unfolding text_le
text_le_trans [] b c h k = refl
text_le_trans (x ∷ xs) [] c h k = cc h
text_le_trans (x ∷ xs) (y ∷ ys) [] h k = cc k
text_le_trans (x ∷ xs) (y ∷ ys) (z ∷ zs) h k = ground (arith, text_le_trans xs ys zs)

abbrev pub Precedes : Text → Text → Type 0
Precedes a b = text_le a b ≡ true

-- The collections that `GET /site/:peerId` sends are sorted, and a name is among them exactly where a store
-- lists a chunk of that peer which is alive and in the collection of that name, and the name is not empty.
pub get_site-collections :
    (peer : Text) (sessions : List SearchSession)
    → IsSorted Precedes (get_site peer sessions).collections
      × ((t : Text)
          → Elem t (get_site peer sessions).collections ↔ (
              (s : Reads) × (c : MemoryChunk) × Elem s (stores_in sessions)
              × Elem c s.list
              × IsIn peer t c))
unfolding get_site
get_site-collections peer sessions =
    let found = (tally_sites peer (stores_in sessions) ([], 0)).0 in
    (
      sort_by-IsSorted text_le Precedes (λ a b h. h) text_le_total text_le_trans found,
      λ t.
          let (into, out) = tally_sites-Elem peer t (stores_in sessions) ([], 0) in
          let (within, back) = Elem-sort_by text_le t found in
          (λ m. elim (into (within m)) [ inl h ↦ h | inr k ↦ absurd k ], λ h. back (out (inl h))),
    )

asked_of-Elem :
    (q : MemoryQuery) (stores : List Reads) (c : MemoryChunk)
    → Elem c (asked_of q stores) ↔ ((s : Reads) × Elem s stores × Elem c (s.query q))
unfolding asked_of
asked_of-Elem q [] c = (λ m. absurd m, λ (s, m, k). absurd m)
asked_of-Elem q (s ∷ stores) c =
    let (into, out) = asked_of-Elem q stores c in
    (
      λ m. elim (Elem-append c (s.query q) (asked_of q stores) m) [
        | inl k ↦ (s, inl refl, k)
        | inr k ↦ let (r, j, l) = into k in (r, inr j, l)
      ],
      λ (r, m, k). elim m [
        | inl same ↦
            Elem-append_left c (s.query q) (asked_of q stores)
              (subst (λ x. Elem c (x.query q)) same k)
        | inr j ↦ Elem-append_right c (s.query q) (asked_of q stores) (out (r, j, k))
      ],
    )

-- The chunks that `GET /site/:peerId/:collection` sends stand newest first, each is in the answer of a store
-- to the query for the peer and the collection, and each chunk of such an answer has its id among them.
pub get_collection-IsListed :
    (peer collection : Text) (since : Option ℕ) (limit : ℕ) (sessions : List SearchSession)
    → let q = record (peer_query peer collection) { since = since; limit = some limit } in
      let sent = get_collection peer collection since limit sessions in
      IsSorted NotNewer sent
      × ((c : MemoryChunk)
          → Elem c sent
          → (s : Reads) × Elem s (stores_in sessions) × Elem c (s.query q))
      × ((s : Reads) (c : MemoryChunk)
          → Elem s (stores_in sessions)
          → Elem c (s.query q)
          → HasId c.id sent)
unfolding get_collection
get_collection-IsListed peer collection since limit sessions =
    let q = record (peer_query peer collection) { since = since; limit = some limit } in
    let asked = asked_of q (stores_in sessions) in
    let results = (keep_new asked ([], [])).1 in
    let (apart, comes, takes) = keep_new-fresh asked in
    (
      sort-IsNewestFirst results,
      λ c m.
          (asked_of-Elem q (stores_in sessions) c).0
            (comes c ((Elem-sort_by is_newer c results).0 m)),
      λ s c m k.
          let (b, at, e) = takes c ((asked_of-Elem q (stores_in sessions) c).1 (s, m, k)) in
          (b, (Elem-sort_by is_newer b results).1 at, e),
    )
