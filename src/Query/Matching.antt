-- ===== src/Query/Matching.antt =====
-- The filter against the conditions that a query states.
use subspace_transceiver.Prelude.{
  ℕ, ◌≤◌, ◌≡◌, refl, sym, ap, subst, Bool-cases, ◌∙◌, Bool, true, false, not, ◌&&◌, ◌||◌, List, [],
  ◌∷◌, Option, none, some, leb, map, unless_given, Elem, arith, ◌↔◌, inl, inr, all,
}
use mathlib.Core.Bool.{decide_iff}
use subspace_transceiver.Prelude.Sets.{includes}
use subspace_transceiver.Prelude.Text.{Text, text_eq, text_eq_iff, to_lower_case}
use subspace_transceiver.Schema.{
  MemoryChunk, MemoryQuery, ContentFormat, ContentEnvelope, MemoryType-discrete,
  MemoryNamespace-discrete, ContentFormat-discrete,
}
use subspace_transceiver.Query.{given_is, is_expired, topics_match, format_is, build_orbit_filter}

-- A condition on an optional field holds where the field is missing.
abbrev pub Given {ℓ} : {A : Type ℓ} → Option A → (A → Type 0) → Type 0
Given none P = Unit
Given (some a) P = P a

-- The chunk is live and meets every condition that the query states.
pub record Matches (now : ℕ) (q : MemoryQuery) (doc : MemoryChunk) : Type 0 where
  pub alive : doc.tombstone ≡ false
  pub unexpired : Given doc.ttl (λ t. now ≤ t)
  pub kind : Given q.kind (λ t. doc.kind ≡ t)
  pub namespace : Given q.namespace (λ n. doc.namespace ≡ n)
  pub project : Given q.project (λ p. doc.source.project ≡ some p)
  pub peer : Given q.peer_id (λ p. doc.source.peer_id ≡ p)
  pub collection : Given q.collection (λ c. doc.collection ≡ some c)
  pub format :
      Given q.content_format
        (λ f. (e : ContentEnvelope) × (doc.content_envelope ≡ some e) × (e.format ≡ f))
  pub confident : Given q.min_confidence (λ c. c ≤ doc.confidence)
  pub since : Given q.since (λ t. t ≤ doc.source.timestamp)
  pub until : Given q.until (λ t. doc.source.timestamp ≤ t)
  pub topics : Given q.topics (λ ts.
      (t : Text) → Elem t ts → (u : Text) × Elem u doc.topic × (to_lower_case u ≡ to_lower_case t))

unless_given_iff {ℓ} :
    {A : Type ℓ} (o : Option A) (test : A → Bool) (P : A → Type 0)
    → ((a : A) → (test a ≡ true) ↔ P a)
    → (unless_given o test ≡ true) ↔ Given o P
unless_given_iff none test P h = (λ _. tt, λ _. refl)
unless_given_iff (some a) test P h = h a

leb_iff : (a b : ℕ) → (leb a b ≡ true) ↔ (a ≤ b)
leb_iff a b = ground arith

given_is_iff : (o : Option Text) (b : Text) → (given_is o b ≡ true) ↔ (o ≡ some b)
given_is_iff none b = ground arith
given_is_iff (some a) b = ground (arith, text_eq_iff a b)

format_is_iff :
    (o : Option ContentEnvelope) (f : ContentFormat)
    → (format_is o f ≡ true) ↔ ((e : ContentEnvelope) × (o ≡ some e) × (e.format ≡ f))
format_is_iff none f = (λ h. absurd (ground arith), λ (e, p, k). absurd (ground arith))
format_is_iff (some e) f = (
  λ h. (e, refl, (decide_iff (ContentFormat-discrete e.format f)).0 h),
  λ (d, p, k). (decide_iff (ContentFormat-discrete e.format f)).1 (ground arith),
)

includes-map_intro :
    (f : Text → Text) (x : Text) (xs : List Text) (a u : Text)
    → Elem u (x ∷ xs)
    → f u ≡ a
    → (((u : Text) × Elem u xs × (f u ≡ a)) → includes (map f xs) a ≡ true)
    → text_eq (f x) a || includes (map f xs) a ≡ true
includes-map_intro f x xs a u (inl here) e rest =
    ground (arith, (text_eq_iff (f x) a).1 (ap f (sym here) ∙ e))
includes-map_intro f x xs a u (inr m) e rest = ground (arith, rest (u, m, e))

includes-map_iff :
    (f : Text → Text) (xs : List Text) (a : Text)
    → (includes (map f xs) a ≡ true) ↔ ((u : Text) × Elem u xs × (f u ≡ a))
unfolding includes
includes-map_iff f [] a = (λ h. absurd (ground arith), λ (u, m, e). absurd m)
includes-map_iff f (x ∷ xs) a = (
  λ h. elim (Bool-cases (text_eq (f x) a)) [
    | inl here ↦ (x, inl refl, (text_eq_iff (f x) a).0 here)
    | inr later ↦ let (u, m, e) = (includes-map_iff f xs a).0 (ground arith) in (u, inr m, e)
  ],
  λ (u, m, e). includes-map_intro f x xs a u m e ((includes-map_iff f xs a).1),
)

all_elim :
    (p : Text → Bool) (P : Text → Type 0)
    → ((t : Text) → (p t ≡ true) ↔ P t)
    → (t : Text) (ts : List Text) (u : Text) → Elem u (t ∷ ts)
    → p t ≡ true
    → ((u : Text) → Elem u ts → P u)
    → P u
all_elim p P h t ts u (inl e) k rest = subst P (sym e) ((h t).0 k)
all_elim p P h t ts u (inr m) k rest = rest u m

all_iff :
    (p : Text → Bool) (P : Text → Type 0)
    → ((t : Text) → (p t ≡ true) ↔ P t)
    → (ts : List Text) → (all p ts ≡ true) ↔ ((t : Text) → Elem t ts → P t)
all_iff p P h [] = (λ _ t m. absurd m, λ _. refl)
all_iff p P h (t ∷ ts) = (
  λ k u m. all_elim p P h t ts u m (ground arith) ((all_iff p P h ts).0 (ground arith)),
  λ k. ground (arith, (h t).1 (k t (inl refl)), (all_iff p P h ts).1 (λ u m. k u (inr m))),
)

topics_match_iff :
    (doc : MemoryChunk) (ts : List Text)
    → (topics_match doc ts ≡ true) ↔ (
        (t : Text)
        → Elem t ts
        → (u : Text) × Elem u doc.topic × (to_lower_case u ≡ to_lower_case t))
unfolding topics_match
topics_match_iff doc = all_iff _ _ (λ t. includes-map_iff to_lower_case doc.topic (to_lower_case t))

ttl_iff :
    (now : ℕ) (o : Option ℕ)
    → (not (not (unless_given o (λ t. leb now t))) ≡ true) ↔ Given o (λ t. now ≤ t)
ttl_iff now none = (λ _. tt, λ _. refl)
ttl_iff now (some t) = ground arith

unexpired_iff :
    (now : ℕ) (doc : MemoryChunk) → (not (is_expired now doc) ≡ true) ↔ Given doc.ttl (λ t. now ≤ t)
unexpired_iff now doc = ttl_iff now doc.ttl

live_of : (b : Bool) → not b ≡ true → b ≡ false
live_of b h = ground arith

-- Twelve conditions in a row.
all_twelve :
    (a b c d e f g h i j k l : Bool)
    → ((a && b && c && d && e && f && g && h && i && j && k && l) ≡ true) ↔ (
        (a ≡ true)
        × (b ≡ true)
        × (c ≡ true)
        × (d ≡ true)
        × (e ≡ true)
        × (f ≡ true)
        × (g ≡ true)
        × (h ≡ true)
        × (i ≡ true)
        × (j ≡ true)
        × (k ≡ true)
        × (l ≡ true))
all_twelve a b c d e f g h i j k l = ground arith

-- The filter keeps a chunk exactly if it is live (no tombstone, no `ttl` in the past) and meets each
-- condition that the query states: type, namespace, project, peer, collection, content format,
-- confidence, time range, and every topic up to the case of letters.
pub build_orbit_filter_iff :
    (now : ℕ) (q : MemoryQuery) (doc : MemoryChunk)
    → (build_orbit_filter now q doc ≡ true) ↔ Matches now q doc
unfolding build_orbit_filter
build_orbit_filter_iff now q doc =
    let kinds = unless_given_iff q.kind _ _ (λ t. decide_iff (MemoryType-discrete doc.kind t)) in
    let spaces =
      unless_given_iff q.namespace _ _
        (λ n. decide_iff (MemoryNamespace-discrete doc.namespace n)) in
    let projects = unless_given_iff q.project _ _ (given_is_iff doc.source.project) in
    let peers = unless_given_iff q.peer_id _ _ (text_eq_iff doc.source.peer_id) in
    let shelves = unless_given_iff q.collection _ _ (given_is_iff doc.collection) in
    let formats = unless_given_iff q.content_format _ _ (format_is_iff doc.content_envelope) in
    let sure = unless_given_iff q.min_confidence _ _ (λ c. leb_iff c doc.confidence) in
    let after = unless_given_iff q.since _ _ (λ t. leb_iff t doc.source.timestamp) in
    let before = unless_given_iff q.until _ _ (λ t. leb_iff doc.source.timestamp t) in
    let topics = unless_given_iff q.topics _ _ (topics_match_iff doc) in
    (
      λ h.
          let p =
            (all_twelve (not doc.tombstone) (not (is_expired now doc)) _ _ _ _ _ _ _ _ _ _).0 h in
          record {
            alive = live_of doc.tombstone p.0;
            unexpired = (unexpired_iff now doc).0 p.1;
            kind = kinds.0 p.2;
            namespace = spaces.0 p.3;
            project = projects.0 p.4;
            peer = peers.0 p.5;
            collection = shelves.0 p.6;
            format = formats.0 p.7;
            confident = sure.0 p.8;
            since = after.0 p.9;
            until = before.0 p.10;
            topics = topics.0 p.11;
          },
      λ m. (all_twelve _ _ _ _ _ _ _ _ _ _ _ _).1 (
        rw m.alive,
        (unexpired_iff now doc).1 m.unexpired,
        kinds.1 m.kind,
        spaces.1 m.namespace,
        projects.1 m.project,
        peers.1 m.peer,
        shelves.1 m.collection,
        formats.1 m.format,
        sure.1 m.confident,
        after.1 m.since,
        before.1 m.until,
        topics.1 m.topics,
      ),
    )
