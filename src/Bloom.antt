-- ===== src/Bloom.antt =====
-- packages/core/src/bloom.ts: BloomFilter. The bytes are a list; the shifts and the products of 32-bit
-- integers are written out with their wrap-around.
mod Bits
pub mod Members
mod Tests
use Prim.Native.Nat.{bit_and, bit_or, bit_xor}
use subspace_transceiver.Prelude.{
  ℕ, zero, suc, ◌+◌, ◌*◌, ◌/◌, ◌%◌, ◌^◌, Bool, true, false, not, ◌&&◌, ◌==◌, List, [], ◌∷◌,
}
use subspace_transceiver.Prelude.Text.{Text}

-- `BLOOM_BITS`, `BLOOM_BYTES`, `BLOOM_HASHES`, `SEED_STEP`
abbrev pub bloom_bits : ℕ
bloom_bits = 2048

abbrev pub bloom_bytes : ℕ
bloom_bytes = 256

abbrev pub bloom_hashes : ℕ
bloom_hashes = 7

abbrev seed_step : ℕ
seed_step = 2654435769

-- The loop of `bloomHash`; `Math.imul(a, b) >>> 0` is the product of 32 bits.
unfoldable pub hash_units : Text → ℕ → ℕ
hash_units [] hash = hash
hash_units (c ∷ item) hash = hash_units item (bit_xor hash c * 16777619 % 2 ^ 32)

unfoldable pub bloom_hash : Text → ℕ → ℕ
unfolding hash_units
bloom_hash item seed = hash_units item (bit_xor 2166136261 seed) % bloom_bits

-- The bit of the `i`th hash: `bloomHash(item, (i * SEED_STEP) >>> 0)`.
unfoldable pub bit_of : Text → ℕ → ℕ
unfolding bloom_hash
bit_of item i = bloom_hash item (i * seed_step % 2 ^ 32)

-- `bits[i]`; beyond the end there is `undefined`, of which no bit is set.
unfoldable pub byte_at : ℕ → List ℕ → ℕ
byte_at i [] = 0
byte_at zero (b ∷ bits) = b
byte_at (suc i) (b ∷ bits) = byte_at i bits

-- `bits[i] |= mask`; a write beyond the end is ignored.
unfoldable pub or_byte : ℕ → ℕ → List ℕ → List ℕ
or_byte i mask [] = []
or_byte zero mask (b ∷ bits) = bit_or b mask ∷ bits
or_byte (suc i) mask (b ∷ bits) = b ∷ or_byte i mask bits

-- `bits[bit >>> 3] |= 1 << (bit & 7)`
unfoldable pub set_bit : ℕ → List ℕ → List ℕ
unfolding or_byte
set_bit bit bits = or_byte (bit / 8) (2 ^ (bit % 8)) bits

-- `bits[bit >>> 3] & (1 << (bit & 7))`, as a test.
unfoldable pub has_bit : ℕ → List ℕ → Bool
unfolding byte_at
has_bit bit bits = not (bit_and (byte_at (bit / 8) bits) (2 ^ (bit % 8)) == 0)

-- The loop of `add` over the last `n` hashes.
unfoldable pub add_bits : Text → ℕ → ℕ → List ℕ → List ℕ
unfolding set_bit bit_of
add_bits item i zero bits = bits
add_bits item i (suc n) bits = add_bits item (suc i) n (set_bit (bit_of item i) bits)

unfoldable pub add : Text → List ℕ → List ℕ
unfolding add_bits
add item bits = add_bits item 0 bloom_hashes bits

-- The loop of `has`.
unfoldable pub has_bits : Text → ℕ → ℕ → List ℕ → Bool
unfolding has_bit bit_of
has_bits item i zero bits = true
has_bits item i (suc n) bits = has_bit (bit_of item i) bits && has_bits item (suc i) n bits

unfoldable pub has : Text → List ℕ → Bool
unfolding has_bits
has item bits = has_bits item 0 bloom_hashes bits

-- `merge`; both filters have `BLOOM_BYTES` bytes.
unfoldable pub merge : List ℕ → List ℕ → List ℕ
merge [] other = []
merge (b ∷ bits) [] = b ∷ bits
merge (b ∷ bits) (c ∷ other) = bit_or b c ∷ merge bits other

unfoldable pub zeros : ℕ → List ℕ
zeros zero = []
zeros (suc n) = 0 ∷ zeros n

-- A new filter.
unfoldable pub new_filter : List ℕ
unfolding zeros
new_filter = zeros bloom_bytes

-- The loop of `from`.
unfoldable pub add_all : List Text → List ℕ → List ℕ
unfolding add
add_all [] bits = bits
add_all (item ∷ items) bits = add_all items (add item bits)

unfoldable pub from : List Text → List ℕ
unfolding add_all new_filter
from items = add_all items new_filter
