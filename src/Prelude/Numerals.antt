-- ===== src/Prelude/Numerals.antt =====
-- Numbers written out as text, as `toString(base)` and template strings write them.
use Prim.Native.Nat.{ℕ, zero, suc, ◌+◌, ◌*◌, ◌/◌, ◌%◌, ◌-◌, ◌≤◌, ◌<◌}
use mathlib.Core.Path.{◌≡◌, refl, sym, ap, subst, ◌∙◌}
use mathlib.Core.Logic.{◌≢◌}
use mathlib.Core.List.{List, [], ◌∷◌, map}
use native.Mathlib.Omega.{arith}
use subspace_transceiver.Prelude.Tests.{leb, ltb, if◌then◌else◌, Bool-cases}
use subspace_transceiver.Prelude.Text.{Text, Lacks}
use subspace_transceiver.Prelude.Lists.{All, all, length}
use mathlib.Core.Logic.{inl, inr}
use mathlib.Core.Bool.{Bool, true, false, ◌&&◌}

-- The digits of a number, put before those already found; `suc n` rounds are enough for `n`.
unfoldable pub digits : ℕ → ℕ → ℕ → List ℕ → List ℕ
digits base zero n found = found
digits base (suc fuel) n found =
    let rest = digits base fuel (n / base) (n % base ∷ found) in
    if ltb n base then n ∷ found else rest

abbrev digit_code : ℕ → ℕ
digit_code d = if ltb d 10 then b'0' + d else 87 + d

unfoldable pub print : ℕ → ℕ → Text
unfolding digits
print base n = map digit_code (digits base (suc n) n [])

unfoldable read : ℕ → List ℕ → ℕ
read acc [] = acc
read acc (d ∷ ds) = read (acc * 10 + d) ds

read-digits :
    (fuel n : ℕ) (found : List ℕ) → n < fuel → read 0 (digits 10 fuel n found) ≡ read n found
unfolding digits read
read-digits zero n found h = ground arith
read-digits (suc fuel) n found h = elim (Bool-cases (ltb n 10)) [
  | inl t ↦ rw t (ap (λ m. read m found) (omega arith))
  | inr f ↦
      let whole : n / 10 * 10 + n % 10 ≡ n = omega arith in
      rw f
        (read-digits fuel (n / 10) (n % 10 ∷ found) (ground arith) ∙ ap (λ m. read m found) whole)
]

map-digit_code_inj : (ds es : List ℕ) → map digit_code ds ≡ map digit_code es → ds ≡ es
map-digit_code_inj [] [] h = refl
map-digit_code_inj [] (e ∷ es) h = cc
map-digit_code_inj (d ∷ ds) [] h = cc
map-digit_code_inj (d ∷ ds) (e ∷ es) h =
    let same : digit_code d ≡ digit_code e = cc in
    let heads : d ≡ e = ground arith in let tails = map-digit_code_inj ds es cc in cc

-- A decimal numeral belongs to one number.
pub print_inj : (m n : ℕ) → print 10 m ≡ print 10 n → m ≡ n
unfolding print read
print_inj m n h =
    sym (read-digits (suc m) m [] (omega arith))
    ∙ ap (read 0) (map-digit_code_inj _ _ h)
    ∙ read-digits (suc n) n [] (omega arith)

map-Lacks :
    (sep : ℕ) → ((d : ℕ) → digit_code d ≢ sep) → (ds : List ℕ) → Lacks sep (map digit_code ds)
map-Lacks sep differs [] = tt
map-Lacks sep differs (d ∷ ds) = (differs d, map-Lacks sep differs ds)

-- A numeral has no colon.
pub print-Lacks_colon : (base n : ℕ) → Lacks b':' (print base n)
unfolding print
print-Lacks_colon base n = map-Lacks b':' (λ d h. ground arith) (digits base (suc n) n [])

-- A numeral does not start with a dash.
pub print-no_dash : (base n : ℕ) (s : Text) → print base n ≢ b'-' ∷ s
unfolding print
print-no_dash base n s h =
    let lacks = map-Lacks b'-' (λ d e. ground arith) (digits base (suc n) n []) in
    (subst (Lacks b'-') h lacks).0 refl

-- `\d`
abbrev pub is_digit : ℕ → Bool
is_digit c = leb b'0' c && leb c b'9'

-- `parseInt(s, 10)` of digits.
unfoldable pub parse_int : ℕ → Text → ℕ
parse_int found [] = found
parse_int found (c ∷ s) = parse_int (found * 10 + (c - b'0')) s

abbrev IsSmall : ℕ → Type 0
IsSmall d = d < 10

digits-AreSmall :
    (fuel n : ℕ) (found : List ℕ)
    → n < fuel
    → All IsSmall found
    → All IsSmall (digits 10 fuel n found)
unfolding digits
digits-AreSmall zero n found h small = small
digits-AreSmall (suc fuel) n found h small = elim (Bool-cases (ltb n 10)) [
  | inl t ↦ rw t (ground arith, small)
  | inr f ↦
      rw f (digits-AreSmall fuel (n / 10) (n % 10 ∷ found) (ground arith) (omega arith, small))
]

parse_int-codes :
    (acc : ℕ) (ds : List ℕ) → All IsSmall ds → parse_int acc (map digit_code ds) ≡ read acc ds
unfolding parse_int read
parse_int-codes acc [] small = refl
parse_int-codes acc (d ∷ ds) (s, small) =
    let same : digit_code d - b'0' ≡ d = ground (arith, s) in
    ap (λ v. parse_int (acc * 10 + v) (map digit_code ds)) same
    ∙ parse_int-codes (acc * 10 + d) ds small

all-is_digit : (ds : List ℕ) → All IsSmall ds → all is_digit (map digit_code ds) ≡ true
all-is_digit [] small = refl
all-is_digit (d ∷ ds) (s, small) =
    let digit : is_digit (digit_code d) ≡ true = ground (arith, s) in
    rw digit (all-is_digit ds small)

-- A numeral is digits, and is read back.
pub print-all_digits : (n : ℕ) → all is_digit (print 10 n) ≡ true
unfolding print
print-all_digits n =
    all-is_digit (digits 10 (suc n) n []) (digits-AreSmall (suc n) n [] (omega arith) tt)

pub parse_int-print : (n : ℕ) → parse_int 0 (print 10 n) ≡ n
unfolding print read
parse_int-print n =
    parse_int-codes 0 (digits 10 (suc n) n []) (digits-AreSmall (suc n) n [] (omega arith) tt)
    ∙ read-digits (suc n) n [] (omega arith)

length-digits :
    (base fuel n : ℕ) (found : List ℕ) → length found ≤ length (digits base fuel n found)
unfolding digits
length-digits base zero n found = omega arith
length-digits base (suc fuel) n found =
    ground (arith, length-digits base fuel (n / base) (n % base ∷ found))

length-map_codes : (ds : List ℕ) → length (map digit_code ds) ≡ length ds
length-map_codes [] = refl
length-map_codes (d ∷ ds) = ap suc (length-map_codes ds)

-- A numeral has a digit.
pub length-print : (n : ℕ) → 1 ≤ length (print 10 n)
unfolding print digits
length-print n =
    let more = length-digits 10 n (n / 10) (n % 10 ∷ []) in
    let same = length-map_codes (digits 10 (suc n) n []) in
    elim (Bool-cases (ltb n 10)) [
      | inl t ↦ rw t (omega arith)
      | inr f ↦ ground (arith, f, more, same)
    ]

digits_four :
    (fuel n : ℕ)
    → 1000 ≤ n
    → n < 10000
    → digits 10 (suc (suc (suc (suc fuel)))) n []
      ≡ n / 10 / 10 / 10 ∷ n / 10 / 10 % 10 ∷ n / 10 % 10 ∷ n % 10 ∷ []
unfolding digits
digits_four fuel n low high =
    let a : ltb n 10 ≡ false = ground arith in
    let b : ltb (n / 10) 10 ≡ false = ground arith in
    let c : ltb (n / 10 / 10) 10 ≡ false = ground arith in
    let d : ltb (n / 10 / 10 / 10) 10 ≡ true = ground arith in rw (a, b, c, d) refl

-- The numerals of four digits.
pub print_four : (n : ℕ) → 1000 ≤ n → n < 10000 → (a b c d : ℕ) × (print 10 n ≡ a ∷ b ∷ c ∷ d ∷ [])
unfolding print
print_four n low high =
    let fuel : suc n ≡ suc (suc (suc (suc (n - 3)))) = omega arith in
    (
      _,
      _,
      _,
      _,
      ap (λ f. map digit_code (digits 10 f n [])) fuel
          ∙ ap (map digit_code) (digits_four (n - 3) n low high),
    )

digits_two :
    (fuel n : ℕ) → 10 ≤ n → n < 100 → digits 10 (suc (suc fuel)) n [] ≡ n / 10 ∷ n % 10 ∷ []
unfolding digits
digits_two fuel n low high =
    let a : ltb n 10 ≡ false = ground arith in
    let b : ltb (n / 10) 10 ≡ true = ground arith in rw (a, b) refl

pub print_two : (n : ℕ) → 10 ≤ n → n < 100 → (a b : ℕ) × (print 10 n ≡ a ∷ b ∷ [])
unfolding print
print_two n low high =
    let fuel : suc n ≡ suc (suc (n - 1)) = omega arith in
    (
      _,
      _,
      ap (λ f. map digit_code (digits 10 f n [])) fuel
          ∙ ap (map digit_code) (digits_two (n - 1) n low high),
    )

pub print_one : (n : ℕ) → n < 10 → (a : ℕ) × (print 10 n ≡ a ∷ [])
unfolding print digits
print_one n low = (b'0' + n, ground (arith, low))
