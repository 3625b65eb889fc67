-- ===== src/Nsid/Segments.antt =====
-- Identifiers, patterns and their segments.
use mathlib.Core.List.{append-nil, append_assoc, reverse}
use subspace_transceiver.Prelude.{
  ◌-◌, ◌≤◌, ◌≡◌, ◌↔◌, refl, sym, ap, ◌∙◌, subst, true, false, ◌||◌, List, [], ◌∷◌, ◌++◌, some,
  some_inj, length, length-append, take, drop, arith, Bool-cases, inl, inr,
}
use subspace_transceiver.Prelude.Text.{
  Text, codes, text_eq, text_eq_iff, text_eq_refl, starts_with, starts_with_iff, split, join,
  join-split, split-append, split_prefix,
}
use subspace_transceiver.Nsid.{dot, ParsedNsid, is_valid_nsid, parse_nsid, ends_with, nsid_matches}

take-append : (p r : Text) → take (length p) (p ++ r) ≡ p
take-append [] r = refl
take-append (c ∷ p) r = ap (λ t. c ∷ t) (take-append p r)

drop-append : (p r : Text) → drop (length p) (p ++ r) ≡ r
drop-append [] r = refl
drop-append (c ∷ p) r = drop-append p r

-- The pattern `p.*`.
abbrev pub below : Text → Text
below p = p ++ codes ".*"

length-below : (p : Text) → length (below p) - 2 ≡ length p
length-below p = omega (arith, length-append p (codes ".*"))

below_ends : (p : Text) → ends_with (below p) (codes ".*") ≡ true
unfolding ends_with
below_ends p =
    rw (length-below p, drop-append p (codes ".*"), text_eq_refl (codes ".*"))
      (ground (arith, length-append p (codes ".*")))

below_no_star : (p : Text) → text_eq (below p) (codes "*") ≡ false
unfolding text_eq
below_no_star [] = refl
below_no_star (c ∷ []) = ground arith
below_no_star (c ∷ d ∷ p) = ground arith

begins :
    (nsid p : Text) (rest : List Text)
    → split dot nsid ≡ split dot p ++ rest
    → text_eq nsid p || starts_with nsid (p ++ dot ∷ []) ≡ true
begins nsid p [] e =
    let same : nsid ≡ p =
      sym (join-split dot nsid) ∙ ap (join dot) (e ∙ append-nil (split dot p)) ∙ join-split dot p in
    ground (arith, (text_eq_iff nsid p).1 same)
begins nsid p (x ∷ xs) e =
    let tail = join dot (x ∷ xs) in
    let whole = split_prefix dot nsid p x xs e ∙ sym (append_assoc p (dot ∷ []) tail) in
    ground (arith, (starts_with_iff nsid (p ++ dot ∷ [])).1 (tail, whole))

-- A pattern `p.*` matches exactly the identifiers of which the segments begin with those of `p`: it
-- never stops inside a segment.
pub nsid_matches_iff :
    (nsid p : Text)
    → (nsid_matches nsid (p ++ codes ".*") ≡ true)
      ↔ ((rest : List Text) × (split dot nsid ≡ split dot p ++ rest))
unfolding nsid_matches
nsid_matches_iff nsid p =
    let shape : nsid_matches nsid (below p) ≡ text_eq nsid p || starts_with nsid (p ++ dot ∷ []) =
      rw (below_no_star p, below_ends p, length-below p, take-append p (codes ".*")) refl in
    rw shape (
      λ h. elim (Bool-cases (text_eq nsid p)) [
        | inl t ↦ ([], ap (split dot) ((text_eq_iff nsid p).0 t) ∙ sym (append-nil (split dot p)))
        | inr f ↦
            let (r, e) = (starts_with_iff nsid (p ++ dot ∷ [])).0 (ground arith) in
            (split dot r, ap (split dot) (e ∙ append_assoc p (dot ∷ []) r) ∙ split-append dot p r)
      ],
      λ (rest, e). begins nsid p rest e,
    )

-- An identifier with its first two segments taken off: what its parts mean.
pub record IsDivided (q : ParsedNsid) (nsid : Text) : Type 0 where
  pub top : Text
  pub domain : Text
  pub authority_made : q.authority ≡ domain ++ dot ∷ top
  pub whole : nsid ≡ top ++ dot ∷ (domain ++ dot ∷ q.name)

divided :
    (segments : List Text)
    → 3 ≤ length segments
    → IsDivided
        (record {
          nsid = join dot segments;
          authority = join dot (reverse (take 2 segments));
          name = join dot (drop 2 segments);
          segments = segments;
        })
        (join dot segments)
unfolding join
divided [] h = absurd (omega arith)
divided (a ∷ []) h = absurd (omega arith)
divided (a ∷ b ∷ []) h = absurd (omega arith)
divided (a ∷ b ∷ c ∷ segments) h = record {
  top = a;
  domain = b;
  authority_made = refl;
  whole = refl;
}

valid_three : (nsid : Text) → is_valid_nsid nsid ≡ true → 3 ≤ length (split dot nsid)
unfolding is_valid_nsid
valid_three nsid h = ground arith

-- An identifier that parses is its first segment, its second and its name with dots between; the
-- authority is the first two the other way round. It is valid, and the parsed text is the one given.
pub parse_nsid-IsDivided :
    (nsid : Text) (q : ParsedNsid)
    → parse_nsid nsid ≡ some q
    → IsDivided q nsid
      × (q.nsid ≡ nsid)
      × (is_valid_nsid nsid ≡ true)
      × (join dot q.segments ≡ nsid)
unfolding parse_nsid
parse_nsid-IsDivided nsid q h = elim (Bool-cases (is_valid_nsid nsid)) [
  | inr f ↦ absurd (ground arith)
  | inl valid ↦
      let same = some_inj (rw (valid, parse_nsid) at h) in
      let segments = split dot nsid in
      let made =
        subst
          (λ t.
            IsDivided
              (record {
                nsid = t;
                authority = join dot (reverse (take 2 segments));
                name = join dot (drop 2 segments);
                segments = segments;
              })
              t)
          (join-split dot nsid) (divided segments (valid_three nsid valid)) in
      subst
        (λ q'.
          IsDivided q' nsid
          × (q'.nsid ≡ nsid)
          × (is_valid_nsid nsid ≡ true)
          × (join dot q'.segments ≡ nsid))
        same (made, refl, valid, join-split dot nsid)
]
