-- ===== src/Routes/Hits.antt =====
-- The chunks that `POST /memory/search` looks at: those of the stores, and the answers of the peers.
use subspace_transceiver.Prelude.{
  ℕ, ◌≡◌, ◌↔◌, ◌⊎◌, inl, inr, refl, sym, subst, true, false, List, [], ◌∷◌, ◌++◌, filter, Option,
  none, some, or_else, Elem, Elem-append, Elem-append_left, Elem-append_right, Elem-filter,
  filter-Elem, arith,
}
use subspace_transceiver.Prelude.Text.{Text, to_lower_case, contains_iff}
use subspace_transceiver.Schema.{MemoryChunk, MemoryQuery, HashcashStamp}
use subspace_transceiver.Routes.Search.{
  SearchSession, SendQuery, has_text, in_time, is_match, local_results, target_peers, answers,
  network_results, send_query,
}

-- The lower-case content has the text in it.
abbrev pub Says : Text → MemoryChunk → Type 0
Says freetext c = (a : Text) × (b : Text) × (to_lower_case c.content ≡ a ++ freetext ++ b)

-- A chunk of a store of a session that is alive and says the text.
pub record IsLocal (now : ℕ) (freetext : Text) (s : SearchSession) (c : MemoryChunk) : Type 0 where
  pub listed : Elem c (s.skill.list) ⊎ Elem c (s.project.list)
  pub alive : c.tombstone ≡ false
  pub timely : in_time now c.ttl ≡ true
  pub says : Says freetext c

-- A chunk that says the text in what an asked peer of a session answers.
pub record IsAnswer (send : SendQuery) (freetext : Text) (q : MemoryQuery)
    (pow : Option HashcashStamp) (s : SearchSession) (c : MemoryChunk) : Type 0 where
  pub peer : Text
  pub chunks : List MemoryChunk
  pub asked : Elem peer (target_peers (or_else q.topics []) s)
  pub answered : send s.id peer q pow ≡ some chunks
  pub among : Elem c chunks
  pub says : Says freetext c

module _ (now : ℕ) (freetext : Text) where
  match_of :
      (c : MemoryChunk)
      → is_match now freetext c ≡ true
      → (c.tombstone ≡ false) × (in_time now c.ttl ≡ true) × Says freetext c
  match_of c t = (ground (arith, t), ground (arith, t), (contains_iff _ _).0 (ground (arith, t)))

  is_match-IsLocal :
      (s : SearchSession) (c : MemoryChunk)
      → IsLocal now freetext s c
      → is_match now freetext c ≡ true
  is_match-IsLocal s c h =
      let says = (contains_iff _ _).1 h.says in ground (arith, h.alive, h.timely, says)

  pub local_results_iff :
      (sessions : List SearchSession) (c : MemoryChunk)
      → Elem c (local_results now freetext sessions)
        ↔ ((s : SearchSession) × Elem s sessions × IsLocal now freetext s c)
  unfolding local_results
  local_results_iff [] c = (λ m. absurd m, λ (s, m, h). absurd m)
  local_results_iff (s ∷ sessions) c =
      let found = filter (is_match now freetext) in
      let local = found s.skill.list ++ found s.project.list in
      (
        λ m. elim (Elem-append c local (local_results now freetext sessions) m) [
          | inl m ↦ elim (Elem-append c (found s.skill.list) (found s.project.list) m) [
            | inl m ↦
                let (listed, t) = Elem-filter (is_match now freetext) c s.skill.list m in
                let (alive, timely, says) = match_of c t in
                (
                  s,
                  inl refl,
                  record { listed = inl listed; alive = alive; timely = timely; says = says },
                )
            | inr m ↦
                let (listed, t) = Elem-filter (is_match now freetext) c s.project.list m in
                let (alive, timely, says) = match_of c t in
                (
                  s,
                  inl refl,
                  record { listed = inr listed; alive = alive; timely = timely; says = says },
                )
          ]
          | inr m ↦ let (r, at, h) = (local_results_iff sessions c).0 m in (r, inr at, h)
        ],
        λ (r, at, h). elim at [
          | inl e ↦
              let k = subst (λ r. IsLocal now freetext r c) e h in
              let t = is_match-IsLocal s c k in
              Elem-append_left c local (local_results now freetext sessions) (elim k.listed [
                | inl m ↦
                    Elem-append_left c (found s.skill.list) (found s.project.list)
                      (filter-Elem (is_match now freetext) c s.skill.list m t)
                | inr m ↦
                    Elem-append_right c (found s.skill.list) (found s.project.list)
                      (filter-Elem (is_match now freetext) c s.project.list m t)
              ])
          | inr m ↦
              Elem-append_right c local (local_results now freetext sessions)
                ((local_results_iff sessions c).1 (r, m, h))
        ],
      )

pub sent_by :
    (o : Option (List MemoryChunk)) (c : MemoryChunk)
    → Elem c (or_else o [])
    → (chunks : List MemoryChunk) × (o ≡ some chunks) × Elem c chunks
sent_by none c m = absurd m
sent_by (some chunks) c m = (chunks, refl, m)

module _ (send : SendQuery) (freetext : Text) (q : MemoryQuery) (pow : Option HashcashStamp) where
  answers_iff :
      (id : Text) (peers : List Text) (c : MemoryChunk)
      → Elem c (answers send freetext q pow id peers) ↔ (
          (peer : Text) × (chunks : List MemoryChunk) × Elem peer peers
          × (send id peer q pow ≡ some chunks)
          × Elem c chunks
          × Says freetext c)
  unfolding answers
  answers_iff id [] c = (λ m. absurd m, λ (peer, chunks, m, e, among, says). absurd m)
  answers_iff id (p ∷ peers) c =
      let sent = or_else (send id p q pow) [] in
      let told = filter (has_text freetext) sent in
      let later = answers send freetext q pow id peers in
      (
        λ m. elim (Elem-append c told later m) [
          | inl m ↦
              let (at, t) = Elem-filter (has_text freetext) c sent m in
              let (chunks, e, among) = sent_by (send id p q pow) c at in
              (p, chunks, inl refl, e, among, (contains_iff _ _).0 t)
          | inr m ↦
              let (peer, chunks, at, e, among, says) = (answers_iff id peers c).0 m in
              (peer, chunks, inr at, e, among, says)
        ],
        λ (peer, chunks, at, e, among, says). elim at [
          | inl same ↦
              let e' = subst (λ x. send id x q pow ≡ some chunks) same e in
              let here = subst (λ o. Elem c (or_else o [])) (sym e') among in
              Elem-append_left c told later
                (filter-Elem (has_text freetext) c sent here ((contains_iff _ _).1 says))
          | inr m ↦
              Elem-append_right c told later
                ((answers_iff id peers c).1 (peer, chunks, m, e, among, says))
        ],
      )

  pub network_results_iff :
      (sessions : List SearchSession) (c : MemoryChunk)
      → Elem c (network_results send freetext q pow sessions)
        ↔ ((s : SearchSession) × Elem s sessions × IsAnswer send freetext q pow s c)
  unfolding network_results
  network_results_iff [] c = (λ m. absurd m, λ (s, m, h). absurd m)
  network_results_iff (s ∷ sessions) c =
      let told = answers send freetext q pow s.id (target_peers (or_else q.topics []) s) in
      let later = network_results send freetext q pow sessions in
      (
        λ m. elim (Elem-append c told later m) [
          | inl m ↦
              let (peer, chunks, asked, answered, among, says) =
                (answers_iff s.id (target_peers (or_else q.topics []) s) c).0 m in
              (
                s,
                inl refl,
                record {
                  peer = peer;
                  chunks = chunks;
                  asked = asked;
                  answered = answered;
                  among = among;
                  says = says;
                },
              )
          | inr m ↦ let (r, at, h) = (network_results_iff sessions c).0 m in (r, inr at, h)
        ],
        λ (r, at, h). elim at [
          | inl e ↦
              let k = subst (λ r. IsAnswer send freetext q pow r c) e h in
              Elem-append_left c told later (
                (answers_iff s.id (target_peers (or_else q.topics []) s) c).1
                  (k.peer, k.chunks, k.asked, k.answered, k.among, k.says))
          | inr m ↦ Elem-append_right c told later ((network_results_iff sessions c).1 (r, m, h))
        ],
      )

-- With the stub of `sendQuery` no peer answers anything.
answers-send_query :
    (freetext : Text) (q : MemoryQuery) (pow : Option HashcashStamp) (id : Text) (peers : List Text)
    → answers send_query freetext q pow id peers ≡ []
unfolding answers send_query
answers-send_query freetext q pow id [] = refl
answers-send_query freetext q pow id (peer ∷ peers) = answers-send_query freetext q pow id peers

pub network_results-send_query :
    (freetext : Text) (q : MemoryQuery) (pow : Option HashcashStamp) (sessions : List SearchSession)
    → network_results send_query freetext q pow sessions ≡ []
unfolding network_results
network_results-send_query freetext q pow [] = refl
network_results-send_query freetext q pow (s ∷ sessions) =
    rw (answers-send_query freetext q pow s.id (target_peers (or_else q.topics []) s))
      (network_results-send_query freetext q pow sessions)
