-- ===== src/Epochs/Ids/Printed.antt =====
-- Weeks and years written out and read back.
use subspace_transceiver.Prelude.{
  ℕ, ◌≤◌, ◌<◌, ◌≡◌, refl, sym, ap, subst, ◌∙◌, inl, inr, true, [], ◌∷◌, ◌++◌, some, arith,
  Bool-cases, all, ltb,
}
use subspace_transceiver.Prelude.Numerals.{
  print, is_digit, parse_int, print-all_digits, parse_int-print, print_four, print_two, print_one,
}
use subspace_transceiver.Prelude.Text.{codes}
use subspace_transceiver.Epochs.Ids.{padded, match_week}

-- A number of two digits is padded to two, which are read back.
record IsTwoDigits (w : ℕ) : Type 0 where
  shape : (e f : ℕ) × (padded w ≡ e ∷ f ∷ [])
  digit : all is_digit (padded w) ≡ true
  value : parse_int 0 (padded w) ≡ w

padded-IsTwoDigits : (w : ℕ) → w < 100 → IsTwoDigits w
unfolding parse_int
padded-IsTwoDigits w h = elim (Bool-cases (ltb w 10)) [
  | inl t ↦
      let (a, e) = print_one w (ground (arith, t)) in
      record {
        shape = (b'0', a, rw (t, e) refl);
        digit = rw t (print-all_digits w);
        value = rw t (parse_int-print w);
      }
  | inr f ↦
      let (a, b, e) = print_two w (ground (arith, f)) h in
      record {
        shape = (a, b, rw (f, e) refl);
        digit = rw f (print-all_digits w);
        value = rw f (parse_int-print w);
      }
]

match_week_eight :
    (a b c d e f : ℕ)
    → all is_digit (a ∷ b ∷ c ∷ d ∷ []) ≡ true
    → all is_digit (e ∷ f ∷ []) ≡ true
    → match_week ((a ∷ b ∷ c ∷ d ∷ []) ++ codes "-W" ++ (e ∷ f ∷ []))
      ≡ some (parse_int 0 (a ∷ b ∷ c ∷ d ∷ []), parse_int 0 (e ∷ f ∷ []))
unfolding match_week
match_week_eight a b c d e f ya wa =
    let six : all is_digit (a ∷ b ∷ c ∷ d ∷ e ∷ f ∷ []) ≡ true = ground (arith, ya, wa) in
    rw six refl

pub match_week-print :
    (y w : ℕ)
    → 1000 ≤ y
    → y < 10000
    → w < 100
    → match_week (print 10 y ++ codes "-W" ++ padded w) ≡ some (y, w)
match_week-print y w low high short =
    let (a, b, c, d, ye) = print_four y low high in
    let pad = padded-IsTwoDigits w short in
    let (e, f, we) = pad.shape in
    let eight =
      match_week_eight a b c d e f (subst (λ s. all is_digit s ≡ true) ye (print-all_digits y))
        (subst (λ s. all is_digit s ≡ true) we pad.digit) in
    let same : match_week (print 10 y ++ codes "-W" ++ padded w)
        ≡ some (parse_int 0 (print 10 y), parse_int 0 (padded w)) =
      subst
        (λ s.
          match_week (s ++ codes "-W" ++ padded w) ≡ some (parse_int 0 s, parse_int 0 (padded w)))
        (sym ye)
        (subst
          (λ s.
            match_week ((a ∷ b ∷ c ∷ d ∷ []) ++ codes "-W" ++ s)
            ≡ some (parse_int 0 (a ∷ b ∷ c ∷ d ∷ []), parse_int 0 s))
          (sym we) eight) in
    same
    ∙ ap (λ v. some (v, parse_int 0 (padded w))) (parse_int-print y)
    ∙ ap (λ v. some (y, v)) pad.value
