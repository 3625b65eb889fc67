-- ===== src/Uri/Parts.antt =====
-- How an address falls into its authority and its path.
use subspace_transceiver.Prelude.{
  ℕ, suc, ◌≡◌, refl, ap, ◌∙◌, true, [], ◌∷◌, ◌++◌, none, some, length, take, drop, arith,
}
use subspace_transceiver.Prelude.Text.{
  Text, truthy, starts_with, join, join-split, Lacks, split_of_Lacks, split-append_sep,
}
use subspace_transceiver.Uri.{slash, index_of, cut_did, cut_peer, path_parts}

index_of-Lacks : (c : ℕ) (p : Text) → Lacks c p → index_of c p ≡ none
unfolding index_of
index_of-Lacks c [] h = refl
index_of-Lacks c (d ∷ p) h = ground (arith, index_of-Lacks c p)

index_of-append : (c : ℕ) (p r : Text) → Lacks c p → index_of c (p ++ c ∷ r) ≡ some (length p)
unfolding index_of
index_of-append c [] r h = ground arith
index_of-append c (d ∷ p) r h = ground (arith, index_of-append c p r)

take-length : (p r : Text) → take (length p) (p ++ r) ≡ p
take-length [] r = refl
take-length (d ∷ p) r = ap (λ t. d ∷ t) (take-length p r)

drop-length : (p : Text) (c : ℕ) (r : Text) → drop (suc (length p)) (p ++ c ∷ r) ≡ r
drop-length [] c r = refl
drop-length (d ∷ p) c r = drop-length p c r

pub cut_did_bare : (p : Text) → Lacks slash p → cut_did p ≡ (p, [])
unfolding cut_did
cut_did_bare p h = rw (index_of-Lacks slash p h, cut_did) refl

pub cut_did-append : (p r : Text) → Lacks slash p → cut_did (p ++ slash ∷ r) ≡ (p, r)
unfolding cut_did
cut_did-append p r h =
    rw (index_of-append slash p r h, cut_did)
      (ap (λ t. (t, drop (suc (length p)) (p ++ slash ∷ r))) (take-length p (slash ∷ r))
        ∙ ap (λ t. (p, t)) (drop-length p slash r))

pub cut_peer_bare : (p : Text) → Lacks slash p → cut_peer p ≡ (p, [])
unfolding cut_peer join
cut_peer_bare p h = rw (split_of_Lacks slash p h) refl

pub cut_peer-append : (p r : Text) → Lacks slash p → cut_peer (p ++ slash ∷ r) ≡ (p, r)
unfolding cut_peer
cut_peer-append p r h = rw (split-append_sep slash p r h) (ap (λ t. (p, t)) (join-split slash r))

-- A prefix without slashes is one of the authority.
pub starts_with-append :
    (p r pre : Text) → Lacks slash pre → starts_with (p ++ slash ∷ r) pre ≡ starts_with p pre
unfolding starts_with
starts_with-append p r [] h = refl
starts_with-append [] r (c ∷ pre) h = ground arith
starts_with-append (d ∷ p) r (c ∷ pre) h = ground (arith, starts_with-append p r pre)

-- A part of a path: not empty, without slashes.
pub record IsPart (t : Text) : Type 0 where
  pub nonempty : truthy t ≡ true
  pub lacks : Lacks slash t

pub path_parts-one : (c : Text) → IsPart c → path_parts c ≡ c ∷ []
unfolding path_parts
path_parts-one c h = rw (split_of_Lacks slash c h.lacks, h.nonempty) refl

pub path_parts-two : (c s : Text) → IsPart c → IsPart s → path_parts (c ++ slash ∷ s) ≡ c ∷ s ∷ []
unfolding path_parts
path_parts-two c s h k =
    rw (split-append_sep slash c s h.lacks, split_of_Lacks slash s k.lacks, h.nonempty, k.nonempty)
      refl
