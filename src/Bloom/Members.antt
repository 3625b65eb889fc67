-- ===== src/Bloom/Members.antt =====
-- packages/core/src/bloom.ts: what `add`, `has`, `from` and `merge` of BloomFilter promise each other.
use Prim.Native.Nat.{bit_and, bit_or}
use native.Mathlib.Nat.{pow-suc}
use subspace_transceiver.Prelude.{
  ℕ, zero, suc, ◌*◌, ◌/◌, ◌%◌, ◌^◌, ◌<◌, ◌≤◌, ◌≡◌, refl, ap, ◌∙◌, sym, subst, arith, true, not,
  ◌==◌, List, [], ◌∷◌, length, ◌⊎◌, inl, inr, Elem, and_iff,
}
use subspace_transceiver.Prelude.Text.{Text}
use subspace_transceiver.Bloom.Bits.{digit, digit-bit_or, bit_and_pow, digit_pow}
use subspace_transceiver.Bloom.{
  bloom_hash, bit_of, byte_at, or_byte, set_bit, has_bit, add_bits, add, has_bits, has, merge,
  zeros, new_filter, add_all, from,
}

digit_cases : (k a : ℕ) → (digit k a ≡ 0) ⊎ (digit k a ≡ 1)
unfolding digit
digit_cases zero a = ground arith
digit_cases (suc k) a = digit_cases k (a / 2)

pow_positive : (k : ℕ) → 1 ≤ 2 ^ k
pow_positive zero = omega arith
pow_positive (suc k) = omega (arith, pow_positive k, pow-suc 2 k)

-- The digit that a bit of the filter is.
digit_at : ℕ → List ℕ → ℕ
unfolding byte_at digit
digit_at bit bits = digit (bit % 8) (byte_at (bit / 8) bits)

nonzero : (n : ℕ) → 1 ≤ n → not (n == 0) ≡ true
nonzero n h = ground arith

some_bit : (n : ℕ) → not (n == 0) ≡ true → 1 ≤ n
some_bit n h = ground arith

digit_bound : (k a : ℕ) → digit k a ≤ 1
digit_bound k a = elim (digit_cases k a) [ inl e ↦ omega arith | inr e ↦ omega arith ]

has_bit-digit_at : (bit : ℕ) (bits : List ℕ) → digit_at bit bits ≡ 1 → has_bit bit bits ≡ true
unfolding has_bit digit_at
has_bit-digit_at bit bits e =
    nonzero (bit_and (byte_at (bit / 8) bits) (2 ^ (bit % 8)))
      (omega (arith, scaled, pow_positive (bit % 8)))
  where
    scaled : bit_and (byte_at (bit / 8) bits) (2 ^ (bit % 8)) ≡ 1 * 2 ^ (bit % 8)
    scaled = bit_and_pow (bit % 8) (byte_at (bit / 8) bits) ∙ ap (λ d. d * 2 ^ (bit % 8)) e

digit_at-has_bit : (bit : ℕ) (bits : List ℕ) → has_bit bit bits ≡ true → digit_at bit bits ≡ 1
unfolding has_bit digit_at
digit_at-has_bit bit bits h = elim (digit_cases (bit % 8) (byte_at (bit / 8) bits)) [
  | inl e ↦ cleared e
  | inr e ↦ e
]
  where
    cleared :
        digit (bit % 8) (byte_at (bit / 8) bits) ≡ 0 → digit (bit % 8) (byte_at (bit / 8) bits) ≡ 1
    cleared e = absurd (
        omega (
          arith,
          some_bit (bit_and (byte_at (bit / 8) bits) (2 ^ (bit % 8))) h,
          bit_and_pow (bit % 8) (byte_at (bit / 8) bits) ∙ ap (λ d. d * 2 ^ (bit % 8)) e,
        ))

or_byte_at :
    (i mask : ℕ) (bits : List ℕ)
    → i < length bits
    → byte_at i (or_byte i mask bits) ≡ bit_or (byte_at i bits) mask
unfolding byte_at or_byte
or_byte_at i mask [] p = absurd (omega arith)
or_byte_at zero mask (b ∷ bits) p = refl
or_byte_at (suc i) mask (b ∷ bits) p = or_byte_at i mask bits (omega arith)

or_byte_keeps :
    (k i j mask : ℕ) (bits : List ℕ)
    → digit k (byte_at j bits) ≤ digit k (byte_at j (or_byte i mask bits))
unfolding byte_at or_byte
or_byte_keeps k i j mask [] = omega arith
or_byte_keeps k zero zero mask (b ∷ bits) = omega (arith, digit-bit_or k b mask)
or_byte_keeps k zero (suc j) mask (b ∷ bits) = omega arith
or_byte_keeps k (suc i) zero mask (b ∷ bits) = omega arith
or_byte_keeps k (suc i) (suc j) mask (b ∷ bits) = or_byte_keeps k i j mask bits

length-or_byte : (i mask : ℕ) (bits : List ℕ) → length (or_byte i mask bits) ≡ length bits
unfolding or_byte
length-or_byte i mask [] = refl
length-or_byte zero mask (b ∷ bits) = refl
length-or_byte (suc i) mask (b ∷ bits) = ap suc (length-or_byte i mask bits)

has_bit-set_bit :
    (bit : ℕ) (bits : List ℕ) → bit / 8 < length bits → has_bit bit (set_bit bit bits) ≡ true
unfolding set_bit digit_at
has_bit-set_bit bit bits p = has_bit-digit_at bit (set_bit bit bits) is_set
  where
    is_set : digit_at bit (set_bit bit bits) ≡ 1
    is_set =
        ap (digit (bit % 8)) (or_byte_at (bit / 8) (2 ^ (bit % 8)) bits p)
        ∙ omega (
          arith,
          digit-bit_or (bit % 8) (byte_at (bit / 8) bits) (2 ^ (bit % 8)),
          digit_pow (bit % 8),
          digit_bound (bit % 8) (byte_at (bit / 8) bits),
        )

-- A list of bytes that has every bit of another.
Covers : List ℕ → List ℕ → Type 0
Covers bits before = (c : ℕ) → has_bit c before ≡ true → has_bit c bits ≡ true

Covers-digit_at :
    (bits before : List ℕ)
    → ((k j : ℕ) → digit k (byte_at j before) ≤ digit k (byte_at j bits))
    → Covers bits before
unfolding Covers digit_at
Covers-digit_at bits before more c h = has_bit-digit_at c bits (
    omega (
      arith,
      digit_at-has_bit c before h,
      more (c % 8) (c / 8),
      digit_bound (c % 8) (byte_at (c / 8) bits),
    ))

set_bit-Covers : (bit : ℕ) (bits : List ℕ) → Covers (set_bit bit bits) bits
unfolding set_bit
set_bit-Covers bit bits =
    Covers-digit_at (set_bit bit bits) bits
      (λ k j. or_byte_keeps k (bit / 8) j (2 ^ (bit % 8)) bits)

bit_of_bound : (item : Text) (i : ℕ) → bit_of item i / 8 < 256
unfolding bit_of bloom_hash
bit_of_bound item i = omega arith

add_bits-Covers : (item : Text) (i n : ℕ) (bits : List ℕ) → Covers (add_bits item i n bits) bits
unfolding add_bits Covers
add_bits-Covers item i zero bits c h = h
add_bits-Covers item i (suc n) bits c h =
    add_bits-Covers item (suc i) n (set_bit (bit_of item i) bits) c
      (set_bit-Covers (bit_of item i) bits c h)

length-set_bit : (bit : ℕ) (bits : List ℕ) → length (set_bit bit bits) ≡ length bits
unfolding set_bit
length-set_bit bit bits = length-or_byte (bit / 8) (2 ^ (bit % 8)) bits

length-add_bits :
    (item : Text) (i n : ℕ) (bits : List ℕ) → length (add_bits item i n bits) ≡ length bits
unfolding add_bits
length-add_bits item i zero bits = refl
length-add_bits item i (suc n) bits =
    length-add_bits item (suc i) n (set_bit (bit_of item i) bits)
    ∙ length-set_bit (bit_of item i) bits

has_bits-add_bits :
    (item : Text) (i n : ℕ) (bits : List ℕ)
    → length bits ≡ 256
    → has_bits item i n (add_bits item i n bits) ≡ true
unfolding add_bits has_bits Covers
has_bits-add_bits item i zero bits e = refl
has_bits-add_bits item i (suc n) bits e = (and_iff _ _).1 (
  add_bits-Covers item (suc i) n (set_bit (bit_of item i) bits) (bit_of item i)
      (has_bit-set_bit (bit_of item i) bits (omega (arith, bit_of_bound item i))),
  has_bits-add_bits item (suc i) n (set_bit (bit_of item i) bits)
      (length-set_bit (bit_of item i) bits ∙ e),
)

has_bits-Covers :
    (item : Text) (i n : ℕ) (bits before : List ℕ)
    → Covers bits before
    → has_bits item i n before ≡ true
    → has_bits item i n bits ≡ true
unfolding has_bits Covers
has_bits-Covers item i zero bits before more h = refl
has_bits-Covers item i (suc n) bits before more h =
    let (first, others) = (and_iff (has_bit (bit_of item i) before) _).0 h in
    (and_iff (has_bit (bit_of item i) bits) _).1
      (more (bit_of item i) first, has_bits-Covers item (suc i) n bits before more others)

has-Covers :
    (item : Text) (bits before : List ℕ)
    → Covers bits before
    → has item before ≡ true
    → has item bits ≡ true
unfolding has
has-Covers item bits before more h = has_bits-Covers item 0 7 bits before more h

pub has-add : (item : Text) (bits : List ℕ) → length bits ≡ 256 → has item (add item bits) ≡ true
unfolding has add
has-add item bits e = has_bits-add_bits item 0 7 bits e

pub length-add : (item : Text) (bits : List ℕ) → length (add item bits) ≡ length bits
unfolding add
length-add item bits = length-add_bits item 0 7 bits

add_all-Covers : (items : List Text) (bits : List ℕ) → Covers (add_all items bits) bits
unfolding add_all add Covers
add_all-Covers [] bits c h = h
add_all-Covers (item ∷ items) bits c h =
    add_all-Covers items (add item bits) c (add_bits-Covers item 0 7 bits c h)

pub length-add_all : (items : List Text) (bits : List ℕ) → length (add_all items bits) ≡ length bits
unfolding add_all
length-add_all [] bits = refl
length-add_all (item ∷ items) bits = length-add_all items (add item bits) ∙ length-add item bits

pub has-add_all :
    (item : Text) (items : List Text) (bits : List ℕ)
    → length bits ≡ 256
    → Elem item items
    → has item (add_all items bits) ≡ true
unfolding add_all
has-add_all item [] bits e at = absurd at
has-add_all item (first ∷ items) bits e (inl same) =
    has-Covers item (add_all items (add first bits)) (add first bits)
      (add_all-Covers items (add first bits))
      (subst (λ other. has item (add other bits) ≡ true) same (has-add item bits e))
has-add_all item (first ∷ items) bits e (inr later) =
    has-add_all item items (add first bits) (length-add first bits ∙ e) later

length-from : (items : List Text) → length (from items) ≡ 256
unfolding from new_filter zeros
length-from items = length-add_all items new_filter

has-from : (item : Text) (items : List Text) → Elem item items → has item (from items) ≡ true
unfolding from new_filter zeros
has-from item items at = has-add_all item items new_filter refl at

pub has-add_keeps :
    (item other : Text) (bits : List ℕ) → has item bits ≡ true → has item (add other bits) ≡ true
unfolding add
has-add_keeps item other bits h =
    has-Covers item (add other bits) bits (add_bits-Covers other 0 7 bits) h

pub has-add_all_keeps :
    (item : Text) (others : List Text) (bits : List ℕ)
    → has item bits ≡ true
    → has item (add_all others bits) ≡ true
has-add_all_keeps item others bits h =
    has-Covers item (add_all others bits) bits (add_all-Covers others bits) h

merge_left :
    (k j : ℕ) (bits other : List ℕ)
    → digit k (byte_at j bits) ≤ digit k (byte_at j (merge bits other))
unfolding merge byte_at
merge_left k j [] other = omega arith
merge_left k j (b ∷ bits) [] = omega arith
merge_left k zero (b ∷ bits) (c ∷ other) = omega (arith, digit-bit_or k b c)
merge_left k (suc j) (b ∷ bits) (c ∷ other) = merge_left k j bits other

merge_right :
    (k j : ℕ) (bits other : List ℕ)
    → length bits ≡ length other
    → digit k (byte_at j other) ≤ digit k (byte_at j (merge bits other))
unfolding merge byte_at
merge_right k j [] [] e = omega arith
merge_right k j [] (c ∷ other) e = absurd (omega arith)
merge_right k j (b ∷ bits) [] e = absurd (omega arith)
merge_right k zero (b ∷ bits) (c ∷ other) e = omega (arith, digit-bit_or k b c)
merge_right k (suc j) (b ∷ bits) (c ∷ other) e = merge_right k j bits other (omega arith)

-- No item is missed: the filter that `from` makes of some items, with the one that it makes of others
-- merged into it, has each of the items and each of the others.
pub merge-from :
    (item : Text) (items others : List Text)
    → Elem item items ⊎ Elem item others
    → has item (merge (from items) (from others)) ≡ true
merge-from item items others (inl at) =
    has-Covers item (merge (from items) (from others)) (from items)
      (Covers-digit_at (merge (from items) (from others)) (from items)
        (λ k j. merge_left k j (from items) (from others)))
      (has-from item items at)
merge-from item items others (inr at) =
    has-Covers item (merge (from items) (from others)) (from others)
      (Covers-digit_at (merge (from items) (from others)) (from others) (λ k j.
        merge_right k j (from items) (from others) (length-from items ∙ sym (length-from others))))
      (has-from item others at)
