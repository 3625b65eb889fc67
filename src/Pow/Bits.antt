-- ===== src/Pow/Bits.antt =====
-- `hasLeadingZeroBits` against the number that the digest writes.
use Prim.Native.Nat.{bit_and}
use subspace_transceiver.Prelude.{
  ℕ, zero, suc, ◌+◌, ◌*◌, ◌/◌, ◌%◌, ◌^◌, ◌≤◌, ◌<◌, ◌≡◌, ◌↔◌, ◌⊎◌, inl, inr, refl, ap, subst, ◌∙◌,
  Bool, true, false, ◌&&◌, [], ◌∷◌, some, ltb, leb, ◌==◌, arith, length, All, and_iff,
  if◌then◌else◌,
}
use native.Mathlib.Nat.{
  mul-le-mul_right, mul-le-mul_left, mul_left_comm, mul-le-mul, mul_assoc, pow-succ', one-le-pow,
}
use subspace_transceiver.Prelude.Text.{Text}
use subspace_transceiver.Pow.{
  char_at, nibble_of, zero_nibbles, nibble_mask, top_bits_clear, has_leading_zero_bits,
}

-- A lower-case hexadecimal digit, as `digest('hex')` writes them.
abbrev pub IsHexDigit : ℕ → Type 0
IsHexDigit c = ((b'0' ≤ c) × (c ≤ b'9')) ⊎ ((b'a' ≤ c) × (c ≤ b'f'))

-- The number that a hexadecimal text writes.
unfoldable pub hex_value : Text → ℕ
hex_value [] = 0
hex_value (c ∷ s) = nibble_of c * 16 ^ length s + hex_value s

nibble_of-lt : (c : ℕ) → nibble_of c < 16
unfolding nibble_of
nibble_of-lt c = ground arith

nibble_of-zero : (c : ℕ) → IsHexDigit c → ((c == b'0') ≡ true) ↔ (nibble_of c ≡ 0)
unfolding nibble_of
nibble_of-zero c h = ground arith

-- The mask of 1, 2 or 3 leading bits, over the sixteen nibbles.
unfoldable mask_right : ℕ → ℕ → Bool
mask_right remainder n =
    if bit_and n (nibble_mask remainder) == 0
    then ltb (n * 2 ^ remainder) 16
    else leb 16 (n * 2 ^ remainder)

unfoldable holds_below : ℕ → (ℕ → Bool) → Bool
holds_below zero test = true
holds_below (suc n) test = test n && holds_below n test

lt_cases : (n m : ℕ) → n < suc m → (n ≡ m) ⊎ (n < m)
lt_cases n m h = ground arith

holds_below-lt :
    (m : ℕ) (test : ℕ → Bool) (n : ℕ) → n < m → holds_below m test ≡ true → test n ≡ true
unfolding holds_below
holds_below-lt zero test n h e = absurd (omega arith)
holds_below-lt (suc m) test n h e = elim (lt_cases n m h) [
  | inl same ↦ rw same (((and_iff (test m) _).0 e).0)
  | inr less ↦ holds_below-lt m test n less (((and_iff (test m) _).0 e).1)
]

all_right :
    (holds_below 16 (mask_right 1) ≡ true)
    × (holds_below 16 (mask_right 2) ≡ true)
    × (holds_below 16 (mask_right 3) ≡ true)
unfolding holds_below mask_right
all_right = (refl, refl, refl)

top_bits_clear_iff :
    (r c : ℕ)
    → holds_below 16 (mask_right r) ≡ true
    → (top_bits_clear r (some c) ≡ true) ↔ (nibble_of c * 2 ^ r < 16)
unfolding top_bits_clear mask_right
top_bits_clear_iff r c h =
    ground (arith, holds_below-lt 16 (mask_right r) (nibble_of c) (nibble_of-lt c) h)

hex_value-lt : (s : Text) → hex_value s < 16 ^ length s
unfolding hex_value
hex_value-lt [] = omega arith
hex_value-lt (c ∷ s) =
    let most : nibble_of c * 16 ^ length s ≤ 15 * 16 ^ length s =
      mul-le-mul_right (16 ^ length s) (ground (arith, nibble_of-lt c)) in
    rw (pow-succ' 16 (length s)) (ground (arith, most, hex_value-lt s))

-- What a leading nibble `n` adds, in units of `m`.
lead-le : (n a m : ℕ) → (n ≤ a → n * m ≤ a * m) × (suc a ≤ n → suc a * m ≤ n * m)
lead-le n a m = (λ h. mul-le-mul_right m h, λ h. mul-le-mul_right m h)

-- The leading `r` bits are clear exactly if the number is small, where `v` follows the nibble.
lead_iff :
    (r n m v : ℕ)
    → v < m
    → (r ≡ 1) ⊎ (r ≡ 2) ⊎ (r ≡ 3)
    → ((n * 2 ^ r < 16) ↔ ((n * m + v) * 2 ^ r < 16 * m))
lead_iff r n m v small (inl e) = rw e (ground (arith, lead-le n 7 m))
lead_iff r n m v small (inr (inl e)) = rw e (ground (arith, lead-le n 3 m))
lead_iff r n m v small (inr (inr e)) = rw e (ground (arith, lead-le n 1 m))

shift_iff :
    (n m v w : ℕ) → 0 < w → v < m → ((n * m + v) * (16 * w) < 16 * m) ↔ ((n ≡ 0) × (v * w < m))
shift_iff zero m v w pos small = grind arith
shift_iff (suc n) m v w pos small =
    let x = suc n * m + v in
    let unit : 1 * m ≤ suc n * m = mul-le-mul_right m (omega arith) in
    let more : x * 1 ≤ x * w = mul-le-mul_left x pos in
    (
      λ h.
          let less : 16 * (x * w) < 16 * m = rw (mul_left_comm x 16 w) at h in absurd (omega arith),
      λ p. absurd (ground (arith, p.0)),
    )

-- The test of the last nibble, which `hasLeadingZeroBits` makes if bits remain.
abbrev rest_clear : ℕ → ℕ → Text → Bool
rest_clear k r s = if ltb 0 r then top_bits_clear r (char_at k s) else true

right_at : (r : ℕ) → (r ≡ 1) ⊎ (r ≡ 2) ⊎ (r ≡ 3) → holds_below 16 (mask_right r) ≡ true
right_at r (inl e) = rw e (all_right.0)
right_at r (inr (inl e)) = rw e (all_right.1)
right_at r (inr (inr e)) = rw e (all_right.2)

small_cases : (r : ℕ) → r < 4 → (r ≡ 0) ⊎ ((r ≡ 1) ⊎ (r ≡ 2) ⊎ (r ≡ 3))
small_cases r h = ground arith

last_nibble_iff :
    (r : ℕ) (s : Text)
    → (r ≡ 1) ⊎ (r ≡ 2) ⊎ (r ≡ 3)
    → r ≤ 4 * length s
    → (top_bits_clear r (char_at 0 s) ≡ true) ↔ (hex_value s * 2 ^ r < 16 ^ length s)
unfolding hex_value
last_nibble_iff r [] some_bits room = absurd (ground arith)
last_nibble_iff r (c ∷ s) some_bits room =
    let here = top_bits_clear_iff r c (right_at r some_bits) in
    let lead = lead_iff r (nibble_of c) (16 ^ length s) (hex_value s) (hex_value-lt s) some_bits in
    rw (pow-succ' 16 (length s)) (λ h. lead.0 (here.0 h), λ h. here.1 (lead.1 h))

rest_clear_iff :
    (r : ℕ) (s : Text)
    → r < 4
    → r ≤ 4 * length s
    → (rest_clear 0 r s ≡ true) ↔ (hex_value s * 2 ^ r < 16 ^ length s)
rest_clear_iff r s h room = elim (small_cases r h) [
  | inl e ↦ rw e (λ _. ground (arith, hex_value-lt s), λ _. refl)
  | inr e ↦ let tested : ltb 0 r ≡ true = ground arith in rw tested (last_nibble_iff r s e room)
]

both_iff :
    (a b : Bool) {P Q : Type 0} → (a ≡ true) ↔ P → (b ≡ true) ↔ Q → ((a && b) ≡ true) ↔ (P × Q)
both_iff a b p q = (
  λ h. let (x, y) = (and_iff a b).0 h in (p.0 x, q.0 y),
  λ h. (and_iff a b).1 (p.1 (h.0), q.1 (h.1)),
)

regroup : (a b c : Bool) → (((a && b) && c) ≡ true) ↔ ((a && (b && c)) ≡ true)
regroup true b c = (λ h. h, λ h. h)
regroup false b c = (λ h. h, λ h. h)

nibbles_iff :
    (k r : ℕ) (s : Text)
    → All IsHexDigit s
    → r < 4
    → 4 * k + r ≤ 4 * length s
    → ((zero_nibbles k s && rest_clear k r s) ≡ true)
      ↔ (hex_value s * (16 ^ k * 2 ^ r) < 16 ^ length s)
unfolding zero_nibbles hex_value
nibbles_iff zero r s hex small room =
    let unit : 1 * 2 ^ r ≡ 2 ^ r = omega arith in rw unit (rest_clear_iff r s small (omega arith))
nibbles_iff (suc k) r [] hex small room = absurd (omega arith)
nibbles_iff (suc k) r (c ∷ s) hex small room =
    let w = 16 ^ k * 2 ^ r in
    let pos : 0 < w = mul-le-mul (one-le-pow k 16 (omega arith)) (one-le-pow r 2 (omega arith)) in
    let shift = shift_iff (nibble_of c) (16 ^ length s) (hex_value s) w pos (hex_value-lt s) in
    let both =
      both_iff (c == b'0') _ (nibble_of-zero c hex.0)
        (nibbles_iff k r s hex.1 small (omega arith)) in
    rw (pow-succ' 16 k, mul_assoc 16 (16 ^ k) (2 ^ r), pow-succ' 16 (length s))
      (
        λ h. shift.1 (both.0 ((regroup (c == b'0') (zero_nibbles k s) (rest_clear k r s)).0 h)),
        λ h. (regroup (c == b'0') (zero_nibbles k s) (rest_clear k r s)).1 (both.1 (shift.0 h)),
      )

pow-nibbles : (k r : ℕ) → 16 ^ k * 2 ^ r ≡ 2 ^ (k * 4 + r)
pow-nibbles zero r = let none_more : 0 * 4 + r ≡ r = omega arith in rw none_more (omega arith)
pow-nibbles (suc k) r =
    let more : suc k * 4 + r ≡ suc (suc (suc (suc (k * 4 + r)))) = omega arith in
    rw (more, pow-succ' 16 k, mul_assoc 16 (16 ^ k) (2 ^ r), pow-nibbles k r)
      (ground (
        arith,
        pow-succ' 2 (k * 4 + r),
        pow-succ' 2 (suc (k * 4 + r)),
        pow-succ' 2 (suc (suc (k * 4 + r))),
        pow-succ' 2 (suc (suc (suc (k * 4 + r)))),
      ))

-- A lower-case hexadecimal digest passes the test for a number of bits, at most all of its own,
-- exactly if the number `v` that it writes starts with that many zero bits: `v * 2 ^ bits` is below
-- 16 to the number of its digits.
pub has_leading_zero_bits_iff :
    (hash : Text) (bits : ℕ)
    → All IsHexDigit hash
    → bits ≤ 4 * length hash
    → (has_leading_zero_bits hash bits ≡ true) ↔ (hex_value hash * 2 ^ bits < 16 ^ length hash)
unfolding has_leading_zero_bits
has_leading_zero_bits_iff hash bits hex room =
    let whole : bits / 4 * 4 + bits % 4 ≡ bits = omega arith in
    let power = pow-nibbles (bits / 4) (bits % 4) ∙ ap (λ b. 2 ^ b) whole in
    subst (λ w. (has_leading_zero_bits hash bits ≡ true) ↔ (hex_value hash * w < 16 ^ length hash))
      power (nibbles_iff (bits / 4) (bits % 4) hash hex (omega arith) (omega arith))
