-- ===== src/Routes/Outcomes.antt =====
-- Searches for the first chunk that fits: what they find, or that nothing fits.
use subspace_transceiver.Prelude.{
  and_iff, ◌≡◌, ◌⊎◌, inl, inr, refl, sym, ap, subst, Bool, true, ◌&&◌, Bool-cases, List, [], ◌∷◌,
  Option, none, some, or_else, some_inj, ◌↔◌, Elem,
}
use subspace_transceiver.Prelude.Text.{Text, text_eq, text_eq_iff}
use subspace_transceiver.Schema.{MemoryChunk, MemoryQuery}
use subspace_transceiver.Query.{given_is}
use subspace_transceiver.Uri.{AgentUri}
use subspace_transceiver.Routes.{Reads}
use subspace_transceiver.Routes.Search.{SearchSession, SendQuery}
use subspace_transceiver.Routes.Hits.{sent_by}
use subspace_transceiver.Routes.Sites.{
  first_in, first_listed, part_is, names, first_sent, first_answer,
}

-- A search that found something with the property, or nothing where nothing has it.
abbrev pub Outcome : (MemoryChunk → Type 0) → Option MemoryChunk → Type 0
Outcome P none = (c : MemoryChunk) → P c → ⊥
Outcome P (some c) = P c

-- An address and a chunk agree in a part, if the address has it.
abbrev pub PartIs : Option Text → Option Text → Type 0
PartIs none b = Unit
PartIs (some part) b = (part ≡ []) ⊎ (b ≡ some part)

abbrev pub IsNamed : AgentUri → MemoryChunk → Type 0
IsNamed u c =
    (c.source.peer_id ≡ u.peer_id) × PartIs u.collection c.collection × PartIs u.slug c.slug

pub given_is_iff : (b : Option Text) (t : Text) → (given_is b t ≡ true) ↔ (b ≡ some t)
given_is_iff none t = (λ h. cc, λ h. cc)
given_is_iff (some a) t =
    (λ h. ap some ((text_eq_iff a t).0 h), λ h. (text_eq_iff a t).1 (some_inj h))

part_is_iff : (a b : Option Text) → (part_is a b ≡ true) ↔ PartIs a b
part_is_iff none b = (λ h. tt, λ h. refl)
part_is_iff (some []) b = (λ h. inl refl, λ h. refl)
part_is_iff (some (x ∷ xs)) b = (
  λ h. inr ((given_is_iff b (x ∷ xs)).0 h),
  λ h. elim h [ inl e ↦ cc e | inr e ↦ (given_is_iff b (x ∷ xs)).1 e ],
)

pub names_iff : (u : AgentUri) (c : MemoryChunk) → (names u c ≡ true) ↔ IsNamed u c
names_iff u c =
    let peer = text_eq c.source.peer_id u.peer_id in
    let col = part_is u.collection c.collection in
    let slug = part_is u.slug c.slug in
    (
      λ h.
          let (pc, s) = (and_iff (peer && col) slug).0 h in
          let (p, k) = (and_iff peer col).0 pc in
          (
            (text_eq_iff c.source.peer_id u.peer_id).0 p,
            (part_is_iff u.collection c.collection).0 k,
            (part_is_iff u.slug c.slug).0 s,
          ),
      λ h. (and_iff (peer && col) slug).1 (
        (and_iff peer col).1 (
          (text_eq_iff c.source.peer_id u.peer_id).1 (h.0),
          (part_is_iff u.collection c.collection).1 (h.1),
        ),
        (part_is_iff u.slug c.slug).1 (h.2),
      ),
    )

-- A search that goes on with another one where it finds nothing.
module _ (P Q R : MemoryChunk → Type 0) (left : (c : MemoryChunk) → P c → R c)
    (right : (c : MemoryChunk) → Q c → R c) (split : (c : MemoryChunk) → R c → P c ⊎ Q c) where
  Outcome-or :
      (o rest : Option MemoryChunk)
      → Outcome P o
      → Outcome Q rest
      → Outcome R (elim o [ none ↦ rest | some c ↦ some c ])
  Outcome-or none none h k = λ c r. elim (split c r) [ inl p ↦ h c p | inr q ↦ k c q ]
  Outcome-or none (some d) h k = right d k
  Outcome-or (some c) rest h k = left c h

pub Outcome_map :
    (P R : MemoryChunk → Type 0) (o : Option MemoryChunk)
    → ((c : MemoryChunk) → P c → R c)
    → ((c : MemoryChunk) → R c → P c)
    → Outcome P o
    → Outcome R o
Outcome_map P R none f g h = λ c r. h c (g c r)
Outcome_map P R (some c) f g h = f c h

module _ (p : MemoryChunk → Bool) where
  first_in-Outcome :
      (cs : List MemoryChunk) → Outcome (λ c. Elem c cs × (p c ≡ true)) (first_in p cs)
  unfolding first_in
  first_in-Outcome [] = λ c h. absurd (h.0)
  first_in-Outcome (c ∷ cs) = elim (Bool-cases (p c)) [
    | inl t ↦ rw t (inl refl, t)
    | inr f ↦ rw f (
        Outcome_map (λ d. Elem d cs × (p d ≡ true)) (λ d. Elem d (c ∷ cs) × (p d ≡ true))
          (first_in p cs) (λ d (m, e). (inr m, e))
          (λ d (m, e). elim m [ inl same ↦ cc (f, ap p same, e) | inr n ↦ (n, e) ])
          (first_in-Outcome cs))
  ]

  pub first_listed-Outcome :
      (stores : List Reads)
      → Outcome
          (λ c. (s : Reads) × Elem s stores × Elem c s.list × (p c ≡ true))
          (first_listed p stores)
  unfolding first_listed
  first_listed-Outcome [] = λ c (s, m, n, e). absurd m
  first_listed-Outcome (s ∷ stores) =
      Outcome-or (λ c. Elem c s.list × (p c ≡ true))
        (λ c. (r : Reads) × Elem r stores × Elem c r.list × (p c ≡ true))
        (λ c. (r : Reads) × Elem r (s ∷ stores) × Elem c r.list × (p c ≡ true))
        (λ c (m, e). (s, inl refl, m, e)) (λ c (r, m, n, e). (r, inr m, n, e))
        (λ c (r, m, n, e). elim m [
          | inl same ↦ inl (subst (λ x. Elem c x.list) same n, e)
          | inr k ↦ inr (r, k, n, e)
        ])
        (first_in p s.list) (first_listed p stores) (first_in-Outcome s.list)
        (first_listed-Outcome stores)

  -- A chunk of what a peer of the list sends.
  abbrev pub Sends : (Text → Option (List MemoryChunk)) → List Text → MemoryChunk → Type 0
  Sends sent peers c =
      (peer : Text) × (cs : List MemoryChunk) × Elem peer peers
      × (sent peer ≡ some cs)
      × Elem c cs
      × (p c ≡ true)

  first_sent-Outcome :
      (sent : Text → Option (List MemoryChunk)) (peers : List Text)
      → Outcome (Sends sent peers) (first_sent p sent peers)
  unfolding first_sent
  first_sent-Outcome sent [] = λ c (peer, cs, m, e, n, t). absurd m
  first_sent-Outcome sent (x ∷ peers) =
      Outcome-or (λ c. Elem c (or_else (sent x) []) × (p c ≡ true)) (Sends sent peers)
        (Sends sent (x ∷ peers))
        (λ c (n, t). let (cs, e, m) = sent_by (sent x) c n in (x, cs, inl refl, e, m, t))
        (λ c (peer, cs, m, e, n, t). (peer, cs, inr m, e, n, t))
        (λ c (peer, cs, m, e, n, t). elim m [
          | inl same ↦
              let here = sym (subst (λ y. sent y ≡ some cs) same e) in
              inl (subst (λ o. Elem c (or_else o [])) here n, t)
          | inr k ↦ inr (peer, cs, k, e, n, t)
        ])
        (first_in p (or_else (sent x) [])) (first_sent p sent peers)
        (first_in-Outcome (or_else (sent x) [])) (first_sent-Outcome sent peers)

  -- A chunk of what a peer of a session answers to the query.
  abbrev pub Answers : SendQuery → MemoryQuery → List SearchSession → MemoryChunk → Type 0
  Answers send q sessions c =
      (s : SearchSession) × Elem s sessions × Sends (λ peer. send s.id peer q none) s.peers c

  pub first_answer-Outcome :
      (send : SendQuery) (q : MemoryQuery) (sessions : List SearchSession)
      → Outcome (Answers send q sessions) (first_answer p send q sessions)
  unfolding first_answer
  first_answer-Outcome send q [] = λ c h. absurd (h.1)
  first_answer-Outcome send q (s ∷ sessions) =
      Outcome-or (Sends (λ peer. send s.id peer q none) s.peers) (Answers send q sessions)
        (Answers send q (s ∷ sessions)) (λ c h. (s, inl refl, h)) (λ c (r, m, h). (r, inr m, h))
        (λ c (r, m, h). elim m [
          | inl same ↦ inl (subst (λ x. Sends (λ peer. send x.id peer q none) x.peers c) same h)
          | inr k ↦ inr (r, k, h)
        ])
        (first_sent p (λ peer. send s.id peer q none) s.peers) (first_answer p send q sessions)
        (first_sent-Outcome (λ peer. send s.id peer q none) s.peers)
        (first_answer-Outcome send q sessions)
