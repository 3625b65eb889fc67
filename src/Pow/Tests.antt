-- ===== src/Pow/Tests.antt =====
-- Mining and verifying with a toy digest, the theorems at concrete inputs.
use subspace_transceiver.Prelude.{
  ℕ, ◌+◌, ◌*◌, ◌/◌, ◌%◌, ◌^◌, ◌≤◌, ◌<◌, ◌≡◌, ◌↔◌, refl, inl, inr, true, false, List, [], ◌∷◌, ◌++◌,
  some, arith,
}
use subspace_transceiver.Prelude.Dict
use subspace_transceiver.Prelude.Numerals.{print, digits}
use subspace_transceiver.Prelude.Text.{Text, codes, text_eq}
use subspace_transceiver.Schema.{HashcashStamp}
use subspace_transceiver.Pow.{
  StampCacheEntry, has_leading_zero_bits, zero_nibbles, top_bits_clear, nibble_of,
  current_challenge, previous_challenge, challenge_at, mine_loop, mine_stamp, verify_stamp, cached,
  put_stamp, get_or_mine,
}
use subspace_transceiver.Pow.Bits.{hex_value, has_leading_zero_bits_iff}
use subspace_transceiver.Pow.Mining.{
  IsHit, IsFirstHit, stamp_of, mine_stamp_finds, mine_stamp-verify,
}
use subspace_transceiver.Pow.Cache.{IsValid}

pows : Unit {0}
unfolding has_leading_zero_bits zero_nibbles top_bits_clear nibble_of current_challenge
    previous_challenge challenge_at mine_loop mine_stamp verify_stamp cached put_stamp get_or_mine
    print digits Dict.get Dict.set text_eq hex_value
pows = tt

unfoldable sum : Text → ℕ
sum [] = 0
sum (c ∷ s) = c * 7 + sum s

-- Two hexadecimal digits, from the sum of the code units.
unfoldable toy : Text → Text
unfolding sum print digits
toy s = print 16 (sum s / 16 % 16) ++ print 16 (sum s % 16)

has_leading_zero_bits_iff_example :
    (has_leading_zero_bits (codes "1f") 3 ≡ true) ↔ (hex_value (codes "1f") * 2 ^ 3 < 16 ^ 2)
has_leading_zero_bits_iff_example =
    has_leading_zero_bits_iff (codes "1f") 3
      (inl (omega arith, omega arith), (inr (omega arith, omega arith), tt)) (omega arith)

abbrev ann : Text
ann = codes "ann"

abbrev chunk : Text
chunk = codes "chunk"

abbrev this_challenge : Text
this_challenge = current_challenge toy ann chunk 1000 5500

abbrev stamp : HashcashStamp
stamp = stamp_of toy this_challenge 3 10

found : mine_stamp toy 40 ann chunk 3 1000 5500 ≡ some stamp
unfolding pows toy
found = refl

ten-IsHit : IsHit toy this_challenge 3 10
unfolding pows toy
ten-IsHit = refl

mine_stamp_finds_example :
    (m : ℕ) × (m ≤ 10)
    × IsFirstHit toy this_challenge 3 0 m
    × (mine_stamp toy 40 ann chunk 3 1000 5500 ≡ some (stamp_of toy this_challenge 3 m))
mine_stamp_finds_example = mine_stamp_finds toy 40 ann chunk 3 1000 5500 10 ten-IsHit (omega arith)

mine_stamp-verify_example : verify_stamp toy stamp ann chunk 3 1000 6100 ≡ true
mine_stamp-verify_example =
    mine_stamp-verify toy 40 ann chunk 3 1000 5500 6100 stamp found (inr refl)

-- A digest without collisions.
unfoldable padded : Text → Text
padded s = b'0' ∷ b'0' ∷ s

padded_inj : (a b : Text) → padded a ≡ padded b → a ≡ b
unfolding padded
padded_inj a b h = cc

abbrev padded_stamp : HashcashStamp
padded_stamp = stamp_of padded (current_challenge padded ann chunk 1000 5500) 8 3

padded_now : verify_stamp padded padded_stamp ann chunk 8 1000 5500 ≡ true
unfolding pows padded
padded_now = refl

padded_later : verify_stamp padded padded_stamp ann chunk 8 1000 6999 ≡ true
unfolding pows padded
padded_later = refl

padded_expired : verify_stamp padded padded_stamp ann chunk 8 1000 7000 ≡ false
unfolding pows padded
padded_expired = refl

empty-IsValid : IsValid toy ann []
unfolding pows
empty-IsValid scope bits window_ms entry h later when = cc

abbrev filled : List (Text × StampCacheEntry)
filled = put_stamp [] chunk 3 1000 stamp 20 5520

asked : get_or_mine toy 40 [] ann chunk 3 1000 5500 5520 ≡ some (filled, stamp)
unfolding pows toy
asked = refl
