-- ===== src/Bloom/Tests.antt =====
-- Two filters of one item each, and the theorem at a concrete input.
use subspace_transceiver.Prelude.{◌≡◌, refl, true, false, [], ◌∷◌, inl, inr}
use subspace_transceiver.Prelude.Text.{Text, codes}
use subspace_transceiver.Bloom.{has, merge, from, new_filter}
use subspace_transceiver.Bloom.Members.{merge-from}

abbrev fox : Text
fox = codes "fox"

abbrev owl : Text
owl = codes "owl"

new_filter_empty : has fox new_filter ≡ false
unfolding has new_filter
new_filter_empty = refl

fox_only : has owl (from (fox ∷ [])) ≡ false
unfolding has from
fox_only = refl

fox_alone : has fox (from (fox ∷ [])) ≡ true
unfolding has from
fox_alone = refl

merge-from_example : has fox (merge (from (owl ∷ [])) (from (fox ∷ []))) ≡ true
merge-from_example = merge-from fox (owl ∷ []) (fox ∷ []) (inr (inl refl))
