-- ===== src/Backlinks/Edges.antt =====
-- What one chunk does to the index.
use subspace_transceiver.Prelude.{
  ◌≡◌, refl, ◌∙◌, Bool, true, false, not, ◌&&◌, ◌||◌, List, [], ◌∷◌, ◌++◌, none, some, any,
  if◌then◌else◌, or_else, arith, Bool-cases, Option-cases, inl, inr,
}
use subspace_transceiver.Prelude.Dict
use subspace_transceiver.Prelude.Sets.{includes, add, remove, includes-add, includes-remove}
use subspace_transceiver.Prelude.Text.{Text, codes, text_eq, text_eq_iff}
use subspace_transceiver.Schema.{MemoryChunk, ContentLink}
use subspace_transceiver.Backlinks.{
  Index, get_backlinks, add_edge, add_links, given, index_chunk, keep_sources, remove_edge,
  remove_links, remove_chunk, get_links,
}

-- The index has the chunk among the backlinks of the target.
abbrev pub has_edge : Index → Text → Text → Bool
has_edge i target source = includes (get_backlinks i target) source

-- The chunk points at the target, by a link or by `supersedes`.
abbrev pub links_to : MemoryChunk → Text → Bool
links_to c target = any (λ l. text_eq l.target target) (get_links c)

add_edge-has_edge :
    (t s : Text) (i : Index) (u id : Text)
    → has_edge (add_edge t s i) u id ≡ (text_eq t u && text_eq s id) || has_edge i u id
unfolding add_edge get_backlinks includes
add_edge-has_edge t s i u id = ground (
  arith,
  Dict.get-set t u (add s (get_backlinks i t)) i,
  includes-add s id (get_backlinks i t),
  text_eq_iff t u,
)

keep_sources-has_edge :
    (t : Text) (sources : List Text) (i : Index) (u id : Text)
    → has_edge (keep_sources t sources i) u id
      ≡ (if text_eq t u then includes sources id else has_edge i u id)
unfolding keep_sources get_backlinks includes
keep_sources-has_edge t [] i u id = ground (arith, Dict.get-delete t u i)
keep_sources-has_edge t (s ∷ sources) i u id = ground (arith, Dict.get-set t u (s ∷ sources) i)

-- No edge leads to a target that the index does not have.
no_edge : (t : Text) (i : Index) (id : Text) → Dict.get t i ≡ none → has_edge i t id ≡ false
unfolding get_backlinks includes
no_edge t i id e = rw e refl

known_edge :
    (t : Text) (i : Index) (id : Text) (sources : List Text)
    → Dict.get t i ≡ some sources
    → has_edge i t id ≡ includes sources id
unfolding get_backlinks
known_edge t i id sources e = rw e refl

remove_edge-has_edge :
    (t s : Text) (i : Index) (u id : Text)
    → has_edge (remove_edge t s i) u id ≡ not (text_eq t u && text_eq s id) && has_edge i u id
unfolding remove_edge
remove_edge-has_edge t s i u id = elim (Option-cases (Dict.get t i)) [
  | inl e ↦
      rw (e, remove_edge)
        (elim (Bool-cases (text_eq t u)) [
          | inl same ↦ rw (← (text_eq_iff t u).0 same) (ground (arith, no_edge t i id e))
          | inr other ↦ rw other refl
        ])
  | inr (sources, e) ↦
      rw (e, remove_edge)
        (keep_sources-has_edge t (remove s sources) i u id ∙ (elim (Bool-cases (text_eq t u)) [
          | inl same ↦ rw (← (text_eq_iff t u).0 same) (
              ground
                (arith, known_edge t i id sources e, includes-remove s id sources, text_eq_iff t t))
          | inr other ↦ rw other refl
        ]))
]

any-append : {A : Type 0} (p : A → Bool) (xs ys : List A) → any p (xs ++ ys) ≡ any p xs || any p ys
any-append p [] ys = refl
any-append p (x ∷ xs) ys = ground (arith, any-append p xs ys)

add_links-has_edge :
    (ls : List ContentLink) (s : Text) (i : Index) (u id : Text)
    → has_edge (add_links ls s i) u id
      ≡ (any (λ l. text_eq l.target u) ls && text_eq s id) || has_edge i u id
unfolding add_links
add_links-has_edge [] s i u id = refl
add_links-has_edge (l ∷ ls) s i u id = ground (
  arith,
  add_links-has_edge ls s (add_edge l.target s i) u id,
  add_edge-has_edge l.target s i u id,
)

remove_links-has_edge :
    (ls : List ContentLink) (s : Text) (i : Index) (u id : Text)
    → has_edge (remove_links ls s i) u id
      ≡ not (any (λ l. text_eq l.target u) ls && text_eq s id) && has_edge i u id
unfolding remove_links
remove_links-has_edge [] s i u id = refl
remove_links-has_edge (l ∷ ls) s i u id = ground (
  arith,
  remove_links-has_edge ls s (remove_edge l.target s i) u id,
  remove_edge-has_edge l.target s i u id,
)

-- A link that says that the chunk supersedes this one.
abbrev says : Text → ContentLink → Bool
says superseded l = text_eq l.target superseded && text_eq l.rel (codes "supersedes")

any_said :
    (s u : Text) (ls : List ContentLink)
    → any (says s) ls ≡ true
    → text_eq s u ≡ true
    → any (λ l. text_eq l.target u) ls ≡ true
any_said s u [] h e = absurd (ground arith)
any_said s u (l ∷ ls) h e = elim (Bool-cases (says s l)) [
  | inl here ↦ ground (arith, text_eq_iff l.target s, text_eq_iff s u, text_eq_iff l.target u)
  | inr there ↦ ground (arith, any_said s u ls (rw there at h) e)
]

-- `getLinks` has the targets of the links, and that of `supersedes`.
links_to_lem :
    (c : MemoryChunk) (u : Text)
    → links_to c u
      ≡ any (λ l. text_eq l.target u) (or_else c.links [])
        || (given c.supersedes && text_eq (or_else c.supersedes []) u)
unfolding get_links
links_to_lem c u =
    let links = or_else c.links [] in
    let superseded = or_else c.supersedes [] in
    let extra : ContentLink = record {
      target = superseded;
      rel = codes "supersedes";
      label = none;
    } in
    let points : ContentLink → Bool = λ l. text_eq l.target u in
    elim (Bool-cases (given c.supersedes)) [
      | inr none_given ↦ rw none_given (ground arith)
      | inl is_given ↦ elim (Bool-cases (any (says superseded) links)) [
        | inr unsaid ↦ rw (is_given, unsaid) (any-append points links (extra ∷ []) ∙ ground arith)
        | inl said ↦ rw (is_given, said) (ground (arith, any_said superseded u links))
      ]
    ]

-- Indexing a chunk adds exactly the edges from its targets to it, unless it is a tombstone.
pub index_chunk-has_edge :
    (c : MemoryChunk) (i : Index) (u id : Text)
    → has_edge (index_chunk c i) u id
      ≡ (not c.tombstone && links_to c u && text_eq c.id id) || has_edge i u id
unfolding index_chunk
index_chunk-has_edge c i u id =
    let linked = add_links (or_else c.links []) c.id i in
    ground (
      arith,
      links_to_lem c u,
      add_links-has_edge (or_else c.links []) c.id i u id,
      add_edge-has_edge (or_else c.supersedes []) c.id linked u id,
    )

-- Removing a chunk takes away exactly those edges.
pub remove_chunk-has_edge :
    (c : MemoryChunk) (i : Index) (u id : Text)
    → has_edge (remove_chunk c i) u id ≡ not (links_to c u && text_eq c.id id) && has_edge i u id
unfolding remove_chunk
remove_chunk-has_edge c i u id =
    let unlinked = remove_links (or_else c.links []) c.id i in
    ground (
      arith,
      links_to_lem c u,
      remove_links-has_edge (or_else c.links []) c.id i u id,
      remove_edge-has_edge (or_else c.supersedes []) c.id unlinked u id,
    )
