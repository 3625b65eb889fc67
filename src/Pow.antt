-- ===== src/Pow.antt =====
-- packages/core/src/pow.ts: hashcash stamps. SHA-256 in hex, `createHash('sha256')...digest('hex')`, is
-- the parameter `sha256`; `Date.now()` is the argument `now`; the loop of `mineStamp` takes fuel.
-- A window has a positive length.
pub mod Bits
pub mod Mining
pub mod Window
pub mod Cache
mod Tests
use subspace_transceiver.Prelude.{
  ℕ, zero, suc, ◌+◌, ◌-◌, ◌*◌, ◌/◌, ◌%◌, ◌^◌, Bool, true, false, not, ◌&&◌, ◌||◌, List, [], ◌∷◌,
  ◌++◌, Option, none, some, ltb, leb, ◌==◌, if◌then◌else◌, or_else,
}
use Prim.Native.Nat.{bit_and}
use subspace_transceiver.Prelude.Dict
use subspace_transceiver.Prelude.Numerals.{print}
use subspace_transceiver.Prelude.Text.{Text, codes, text_eq}
use subspace_transceiver.Schema.{HashcashStamp}

-- `Math.floor(Date.now() / windowMs)`
abbrev pub window_index : ℕ → ℕ → ℕ
window_index window_ms now = now / window_ms

-- `${peerId}:${scope}:${index}`
abbrev pub challenge_text : Text → Text → Text → Text
challenge_text peer scope index = peer ++ b':' ∷ scope ++ b':' ∷ index

-- `hexHash[i]`; undefined behind the end.
abbrev pub char_at : ℕ → Text → Option ℕ
char_at i [] = none
char_at zero (c ∷ s) = some c
char_at (suc i) (c ∷ s) = char_at i s

-- `parseInt(c, 16)`, as `&` reads it: NaN counts as 0.
unfoldable pub nibble_of : ℕ → ℕ
nibble_of c =
    if leb b'0' c && leb c b'9'
    then c - b'0'
    else if leb b'a' c && leb c b'f'
    then c - 87
    else if leb b'A' c && leb c b'F'
    then c - 55
    else 0

-- The loop over the full nibbles.
unfoldable pub zero_nibbles : ℕ → Text → Bool
zero_nibbles zero s = true
zero_nibbles (suc n) [] = false
zero_nibbles (suc n) (c ∷ s) = c == b'0' && zero_nibbles n s

-- `0xf & (0xf << (4 - remainder))`
abbrev pub nibble_mask : ℕ → ℕ
nibble_mask remainder = bit_and 15 (15 * 2 ^ (4 - remainder))

unfoldable pub top_bits_clear : ℕ → Option ℕ → Bool
top_bits_clear remainder none = true
top_bits_clear remainder (some c) = bit_and (nibble_of c) (nibble_mask remainder) == 0

unfoldable pub has_leading_zero_bits : Text → ℕ → Bool
has_leading_zero_bits hash bits =
    zero_nibbles (bits / 4) hash
    && (if ltb 0 (bits % 4) then top_bits_clear (bits % 4) (char_at (bits / 4) hash) else true)

-- A cached stamp; the two diagnostic times are kept as the source keeps them.
pub record StampCacheEntry : Type 0 where
  pub stamp : HashcashStamp
  pub window_index : ℕ
  pub bits : ℕ
  pub window_ms : ℕ
  pub mined_at : ℕ
  pub mine_time_ms : ℕ

-- The key of a cached stamp: `${scope}:${bits}:${windowMs}`.
abbrev pub cache_key : Text → ℕ → ℕ → Text
cache_key scope bits window_ms = scope ++ b':' ∷ print 10 bits ++ b':' ∷ print 10 window_ms

-- `StampCache.get`: an entry counts only within the window in which it was mined.
unfoldable pub cached : List (Text × StampCacheEntry) → Text → ℕ → ℕ → ℕ → Option StampCacheEntry
cached cache scope bits window_ms now = elim (Dict.get (cache_key scope bits window_ms) cache) [
  | none ↦ none
  | some entry ↦ if not (entry.window_index == window_index window_ms now) then none else some entry
]

-- `StampCache.set`
unfoldable pub put_stamp :
    List (Text × StampCacheEntry)
    → Text
    → ℕ
    → ℕ
    → HashcashStamp
    → ℕ
    → ℕ
    → List (Text × StampCacheEntry)
put_stamp cache scope bits window_ms stamp mine_time_ms now =
    Dict.set (cache_key scope bits window_ms)
      (record {
        stamp = stamp;
        window_index = window_index window_ms now;
        bits = bits;
        window_ms = window_ms;
        mined_at = now;
        mine_time_ms = mine_time_ms;
      })
      cache

module _ (sha256 : Text → Text) where
  unfoldable pub challenge_at : Text → Text → Text → Text
  challenge_at peer scope index = sha256 (challenge_text peer scope index)

  unfoldable pub current_challenge : Text → Text → ℕ → ℕ → Text
  current_challenge peer scope window_ms now =
      challenge_at peer scope (print 10 (window_index window_ms now))

  -- The challenge of the window before the one with index `index`; before 0 comes "-1".
  unfoldable pub previous_challenge : Text → Text → ℕ → Text
  previous_challenge peer scope zero = challenge_at peer scope (codes "-1")
  previous_challenge peer scope (suc index) = challenge_at peer scope (print 10 index)

  -- The loop of `mineStamp`, from `nonce` on.
  unfoldable pub mine_loop : ℕ → Text → ℕ → ℕ → Option HashcashStamp
  mine_loop zero challenge bits nonce = none
  mine_loop (suc fuel) challenge bits nonce =
      let nonce_hex = print 16 nonce in
      let hash = sha256 (challenge ++ nonce_hex) in
      let later = mine_loop fuel challenge bits (suc nonce) in
      if has_leading_zero_bits hash bits
      then some (record { bits = bits; challenge = challenge; nonce = nonce_hex; hash = hash })
      else later

  unfoldable pub mine_stamp : ℕ → Text → Text → ℕ → ℕ → ℕ → Option HashcashStamp
  mine_stamp fuel peer scope bits window_ms now =
      mine_loop fuel (current_challenge peer scope window_ms now) bits 0

  unfoldable pub verify_stamp : HashcashStamp → Text → Text → ℕ → ℕ → ℕ → Bool
  verify_stamp stamp peer scope bits window_ms now =
      if ltb stamp.bits bits
      then false
      else if not (text_eq (sha256 (stamp.challenge ++ stamp.nonce)) stamp.hash)
      then false
      else if not (has_leading_zero_bits stamp.hash bits)
      then false
      else text_eq stamp.challenge (current_challenge peer scope window_ms now)
        || text_eq stamp.challenge (previous_challenge peer scope (window_index window_ms now))

  -- `StampCache.getOrMine`: mining starts at `now` and ends at `done`. With no stamp found on the fuel
  -- there is no result.
  unfoldable pub get_or_mine :
      ℕ
      → List (Text × StampCacheEntry)
      → Text
      → Text
      → ℕ
      → ℕ
      → ℕ
      → ℕ
      → Option (List (Text × StampCacheEntry) × HashcashStamp)
  get_or_mine fuel cache peer scope bits window_ms now done =
      elim (cached cache scope bits window_ms now) [
        | some entry ↦ some (cache, entry.stamp)
        | none ↦ elim (mine_stamp fuel peer scope bits window_ms now) [
          | none ↦ none
          | some stamp ↦ some (put_stamp cache scope bits window_ms stamp (done - now) done, stamp)
        ]
      ]

-- `StampCache.getAll` and `StampCache.clear`
unfoldable pub all_stamps : List (Text × StampCacheEntry) → List StampCacheEntry
all_stamps = Dict.values

unfoldable pub clear_cache : List (Text × StampCacheEntry) → List (Text × StampCacheEntry)
clear_cache cache = []
