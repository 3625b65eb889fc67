-- ===== src/Routes/Merged.antt =====
-- What `POST /memory/query` makes of the answers of the stores.
use subspace_transceiver.Prelude.{
  ◌≡◌, ◌≢◌, refl, sym, ap, subst, ◌∙◌, ◌↔◌, ◌⊎◌, inl, inr, Bool, true, false, List, [], ◌∷◌, ◌++◌,
  arith, Bool-cases, Elem, Elem-append, Elem-append_left, Elem-append_right, All-append,
}
use subspace_transceiver.Prelude.Sets.{includes, add, includes-add}
use subspace_transceiver.Prelude.Sort.{IsSorted}
use subspace_transceiver.Prelude.Text.{Text, text_eq, text_eq_iff}
use subspace_transceiver.Schema.{MemoryChunk, MemoryQuery}
use subspace_transceiver.Routes.{Reads, Session, all_queried, keep_new, ask_all, query_memory}

-- Two chunks with different ids.
abbrev pub Differ : MemoryChunk → MemoryChunk → Type 0
Differ a b = a.id ≢ b.id

-- Some chunk of the list has the id.
abbrev pub HasId : Text → List MemoryChunk → Type 0
HasId id cs = (b : MemoryChunk) × Elem b cs × (b.id ≡ id)

-- The ids seen are those of the results, none of which stands twice.
record IsKept (seen : List Text) (results : List MemoryChunk) : Type 0 where
  known : (id : Text) → (includes seen id ≡ true) ↔ HasId id results
  apart : IsSorted Differ results

Differ-append :
    (cs : List MemoryChunk) (c : MemoryChunk)
    → IsSorted Differ cs
    → (HasId c.id cs → ⊥)
    → IsSorted Differ (cs ++ c ∷ [])
Differ-append [] c apart new = (tt, tt)
Differ-append (b ∷ cs) c apart new = (
  All-append (Differ b) cs (c ∷ []) (apart.0) (λ e. new (b, inl refl, e), tt),
  Differ-append cs c (apart.1) (λ (d, m, e). new (d, inr m, e)),
)

add-IsKept :
    (c : MemoryChunk) (seen : List Text) (results : List MemoryChunk)
    → includes seen c.id ≡ false
    → IsKept seen results
    → IsKept (add c.id seen) (results ++ c ∷ [])
add-IsKept c seen results new h = record {
  known = λ id. (
    λ t. elim (Bool-cases (text_eq c.id id)) [
      | inl same ↦
          (c, Elem-append_right c results (c ∷ []) (inl refl), (text_eq_iff c.id id).0 same)
      | inr f ↦
          let (b, m, e) = (h.known id).0 (ground (arith, includes-add c.id id seen, t, f)) in
          (b, Elem-append_left b results (c ∷ []) m, e)
    ],
    λ (b, m, e). elim (Elem-append b results (c ∷ []) m) [
      | inl m ↦ let t = (h.known id).1 (b, m, e) in ground (arith, includes-add c.id id seen, t)
      | inr m ↦ elim m [
        | inl same ↦
            let t = (text_eq_iff c.id id).1 (ap (λ x. x.id) (sym same) ∙ e) in
            ground (arith, includes-add c.id id seen, t)
        | inr n ↦ absurd n
      ]
    ],
  );
  apart = Differ-append results c h.apart (λ k. cc_false new ((h.known c.id).1 k));
}
  where
    cc_false : {b : Bool} → b ≡ false → b ≡ true → ⊥
    cc_false f t = cc

-- What the results are after chunks have been offered: nothing is lost, each offered id is there, and
-- what is new was offered.
record IsOffered (cs : List MemoryChunk) (results later : List MemoryChunk) : Type 0 where
  stays : (c : MemoryChunk) → Elem c results → Elem c later
  takes : (c : MemoryChunk) → Elem c cs → HasId c.id later
  comes : (c : MemoryChunk) → Elem c later → Elem c results ⊎ Elem c cs

keep_new-IsOffered :
    (cs : List MemoryChunk) (seen : List Text) (results : List MemoryChunk)
    → IsKept seen results
    → IsKept ((keep_new cs (seen, results)).0) ((keep_new cs (seen, results)).1)
      × IsOffered cs results ((keep_new cs (seen, results)).1)
unfolding keep_new
keep_new-IsOffered [] seen results h =
    (h, record { stays = λ c m. m; takes = λ c m. absurd m; comes = λ c m. inl m })
keep_new-IsOffered (c ∷ cs) seen results h = elim (Bool-cases (includes seen c.id)) [
  | inl t ↦
      let (kept, offered) = keep_new-IsOffered cs seen results h in
      rw (t, keep_new)
        (
          kept,
          record {
            stays = offered.stays;
            takes = λ d m. elim m [
              | inl same ↦
                  let (b, at, e) = (h.known c.id).0 t in
                  (b, offered.stays b at, e ∙ ap (λ x. x.id) (sym same))
              | inr m ↦ offered.takes d m
            ];
            comes = λ d m. elim (offered.comes d m) [ inl m ↦ inl m | inr m ↦ inr (inr m) ];
          },
        )
  | inr f ↦
      let (kept, offered) =
        keep_new-IsOffered cs (add c.id seen) (results ++ c ∷ []) (add-IsKept c seen results f h) in
      rw (f, keep_new)
        (
          kept,
          record {
            stays = λ d m. offered.stays d (Elem-append_left d results (c ∷ []) m);
            takes = λ d m. elim m [
              | inl same ↦ (
                c,
                offered.stays c (Elem-append_right c results (c ∷ []) (inl refl)),
                ap (λ x. x.id) (sym same),
              )
              | inr m ↦ offered.takes d m
            ];
            comes = λ d m. elim (offered.comes d m) [
              | inl m ↦ elim (Elem-append d results (c ∷ []) m) [
                | inl m ↦ inl m
                | inr m ↦ inr (elim m [ inl same ↦ inl same | inr n ↦ absurd n ])
              ]
              | inr m ↦ inr (inr m)
            ];
          },
        )
]

-- A list without its repetitions: it has no id twice, nothing but what was offered, and each id offered.
pub keep_new-fresh :
    (cs : List MemoryChunk)
    → IsSorted Differ ((keep_new cs ([], [])).1)
      × ((c : MemoryChunk) → Elem c ((keep_new cs ([], [])).1) → Elem c cs)
      × ((c : MemoryChunk) → Elem c cs → HasId c.id ((keep_new cs ([], [])).1))
unfolding includes
keep_new-fresh cs =
    let (kept, offered) =
      keep_new-IsOffered cs [] []
        (record { known = λ id. (λ h. cc, λ (b, m, e). absurd m); apart = tt }) in
    (kept.apart, λ c m. elim (offered.comes c m) [ inl n ↦ absurd n | inr n ↦ n ], offered.takes)

-- The results of stores that have been asked.
pub record IsMerged (q : MemoryQuery) (stores : List Reads) (results : List MemoryChunk)
    : Type 0 where
  pub apart : IsSorted Differ results
  pub answered :
      (c : MemoryChunk) → Elem c results → (s : Reads) × Elem s stores × Elem c (s.query q)
  pub present :
      (s : Reads) (c : MemoryChunk) → Elem s stores → Elem c (s.query q) → HasId c.id results

-- What the stores asked so far and those still to be asked make.
ask_all-IsOffered :
    (q : MemoryQuery) (stores : List Reads) (acc : List Text × List MemoryChunk)
    → IsKept (acc.0) (acc.1)
    → IsKept ((ask_all q stores acc).0) ((ask_all q stores acc).1)
      × ((c : MemoryChunk) → Elem c (acc.1) → Elem c ((ask_all q stores acc).1))
      × ((s : Reads) (c : MemoryChunk)
          → Elem s stores
          → Elem c (s.query q)
          → HasId c.id ((ask_all q stores acc).1))
      × ((c : MemoryChunk)
          → Elem c ((ask_all q stores acc).1)
          → Elem c (acc.1) ⊎ ((s : Reads) × Elem s stores × Elem c (s.query q)))
unfolding ask_all
ask_all-IsOffered q [] acc h = (h, λ c m. m, λ s c m n. absurd m, λ c m. inl m)
ask_all-IsOffered q (s ∷ stores) (seen, results) h =
    let (kept, offered) = keep_new-IsOffered (s.query q) seen results h in
    let (all, stays, takes, comes) =
      ask_all-IsOffered q stores (keep_new (s.query q) (seen, results)) kept in
    (
      all,
      λ c m. stays c (offered.stays c m),
      λ r c m n. elim m [
        | inl same ↦
            let (b, at, e) = offered.takes c (subst (λ x. Elem c (x.query q)) same n) in
            (b, stays b at, e)
        | inr m ↦ takes r c m n
      ],
      λ c m. elim (comes c m) [
        | inl m ↦ elim (offered.comes c m) [ inl m ↦ inl m | inr n ↦ inr (s, inl refl, n) ]
        | inr (r, at, n) ↦ inr (r, inr at, n)
      ],
    )

-- No two results of `POST /memory/query` have one id, each is in the answer of a store that the query asks,
-- and each chunk of such an answer has its id among them.
pub query_memory-IsMerged :
    (q : MemoryQuery) (sessions : List Session)
    → IsMerged q (all_queried q.namespace sessions) (query_memory q sessions)
unfolding query_memory includes
query_memory-IsMerged q sessions =
    let (kept, stays, takes, comes) =
      ask_all-IsOffered q (all_queried q.namespace sessions) ([], [])
        (record { known = λ id. (λ h. cc, λ (b, m, e). absurd m); apart = tt }) in
    record {
      apart = kept.apart;
      answered = λ c m. elim (comes c m) [ inl m ↦ absurd m | inr found ↦ found ];
      present = takes;
    }
