-- ===== src/Bloom/Bits.antt =====
-- One binary digit of a number, and of `|` and `&`.
use Prim.Native.Nat.{min, max, bit_and, bit_or, digits, bit_and-bitwise, bit_or-bitwise}
use native.Mathlib.Nat.{pow-suc, mul_assoc}
use subspace_transceiver.Prelude.{
  ℕ, zero, suc, ◌+◌, ◌*◌, ◌/◌, ◌%◌, ◌^◌, ◌≤◌, ◌≡◌, refl, ap, ◌∙◌, sym, arith,
}

-- Digits are met pairwise from the lowest on, and any number of rounds that is large enough will do.
abbrev both_digits : ℕ → ℕ → ℕ → ℕ
both_digits rounds a b = digits (λ b. zero) min rounds a b

both_digits_enough : (m n a b : ℕ) → a ≤ m → a ≤ n → both_digits m a b ≡ both_digits n a b
both_digits_enough zero zero a b p q = refl
both_digits_enough zero (suc n) zero b p q = refl
both_digits_enough zero (suc n) (suc a) b p q = absurd (omega arith)
both_digits_enough (suc m) zero zero b p q = refl
both_digits_enough (suc m) zero (suc a) b p q = absurd (omega arith)
both_digits_enough (suc m) (suc n) zero b p q = refl
both_digits_enough (suc m) (suc n) (suc a) b p q =
    omega (arith, both_digits_enough m n (suc a / 2) (b / 2) (omega arith) (omega arith))

bit_and_low : (a b : ℕ) → bit_and a b ≡ bit_and (a / 2) (b / 2) * 2 + min (a % 2) (b % 2)
bit_and_low zero b = omega (arith, bit_and-bitwise 0 b, bit_and-bitwise 0 (b / 2))
bit_and_low (suc a) b = omega (
  arith,
  bit_and-bitwise (suc a) b,
  bit_and-bitwise (suc a / 2) (b / 2),
  both_digits_enough a (suc a / 2) (suc a / 2) (b / 2) (omega arith) (omega arith),
)

abbrev any_digits : ℕ → ℕ → ℕ → ℕ
any_digits rounds a b = digits (λ b. b) max rounds a b

any_digits_enough : (m n a b : ℕ) → a ≤ m → a ≤ n → any_digits m a b ≡ any_digits n a b
any_digits_enough zero zero a b p q = refl
any_digits_enough zero (suc n) zero b p q = refl
any_digits_enough zero (suc n) (suc a) b p q = absurd (omega arith)
any_digits_enough (suc m) zero zero b p q = refl
any_digits_enough (suc m) zero (suc a) b p q = absurd (omega arith)
any_digits_enough (suc m) (suc n) zero b p q = refl
any_digits_enough (suc m) (suc n) (suc a) b p q =
    omega (arith, any_digits_enough m n (suc a / 2) (b / 2) (omega arith) (omega arith))

bit_or_low : (a b : ℕ) → bit_or a b ≡ bit_or (a / 2) (b / 2) * 2 + max (a % 2) (b % 2)
bit_or_low zero b = omega (arith, bit_or-bitwise 0 b, bit_or-bitwise 0 (b / 2))
bit_or_low (suc a) b = omega (
  arith,
  bit_or-bitwise (suc a) b,
  bit_or-bitwise (suc a / 2) (b / 2),
  any_digits_enough a (suc a / 2) (suc a / 2) (b / 2) (omega arith) (omega arith),
)

-- The `k`th binary digit.
unfoldable pub digit : ℕ → ℕ → ℕ
digit zero a = a % 2
digit (suc k) a = digit k (a / 2)

bit_or_half : (a b : ℕ) → bit_or a b / 2 ≡ bit_or (a / 2) (b / 2)
bit_or_half a b = omega (arith, bit_or_low a b)

pub digit-bit_or : (k a b : ℕ) → digit k (bit_or a b) ≡ max (digit k a) (digit k b)
unfolding digit
digit-bit_or zero a b = omega (arith, bit_or_low a b)
digit-bit_or (suc k) a b = ap (digit k) (bit_or_half a b) ∙ digit-bit_or k (a / 2) (b / 2)

both_zero : (m b : ℕ) → both_digits m b 0 ≡ 0
both_zero zero b = refl
both_zero (suc m) zero = refl
both_zero (suc m) (suc b) = omega (arith, both_zero m (suc b / 2))

bit_and_zero : (a : ℕ) → bit_and a 0 ≡ 0
bit_and_zero a = bit_and-bitwise a 0 ∙ both_zero a a

and_low : ℕ → ℕ → ℕ → ℕ
and_low a h r = bit_and (a / 2) h * 2 + min (a % 2) r

bit_and_twice : (a p : ℕ) → bit_and a (p * 2) ≡ bit_and (a / 2) p * 2
unfolding and_low
bit_and_twice a p =
    bit_and_low a (p * 2)
    ∙ ap (and_low a (p * 2 / 2)) (even p)
    ∙ ap (λ h. and_low a h 0) (halved p)
    ∙ omega arith
  where
    even : (p : ℕ) → p * 2 % 2 ≡ 0
    even p = omega arith

    halved : (p : ℕ) → p * 2 / 2 ≡ p
    halved p = omega arith

-- `a & (1 << k)` is the digit, in its place.
pub bit_and_pow : (k a : ℕ) → bit_and a (2 ^ k) ≡ digit k a * 2 ^ k
unfolding digit
bit_and_pow zero a = omega (arith, bit_and_low a 1, bit_and_zero (a / 2))
bit_and_pow (suc k) a =
    ap (bit_and a) (pow-suc 2 k)
    ∙ bit_and_twice a (2 ^ k)
    ∙ ap (λ n. n * 2) (bit_and_pow k (a / 2))
    ∙ mul_assoc (digit k (a / 2)) (2 ^ k) 2
    ∙ ap (λ n. digit k (a / 2) * n) (sym (pow-suc 2 k))

pub digit_pow : (k : ℕ) → digit k (2 ^ k) ≡ 1
unfolding digit
digit_pow zero = refl
digit_pow (suc k) = ap (digit k) (half k) ∙ digit_pow k
  where
    half : (k : ℕ) → 2 ^ suc k / 2 ≡ 2 ^ k
    half k = omega (arith, pow-suc 2 k)
