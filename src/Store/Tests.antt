-- ===== src/Store/Tests.antt =====
-- A document as a list of entries, and the theorems at concrete inputs.
use subspace_transceiver.Prelude.{◌≡◌, ◌↔◌, false, List, [], ◌∷◌, none, some, Elem}
use subspace_transceiver.Prelude.Text.{codes}
use subspace_transceiver.Schema.{MemoryChunk}
use subspace_transceiver.Samples.{first, second}
use subspace_transceiver.Query.{is_expired}
use subspace_transceiver.Store.{Store, create_in_memory, create_persistent, put, get, list, close}
use subspace_transceiver.Store.Entries.{entries_loro, entries-IsLoro, empty-IsKeyed}
use subspace_transceiver.Store.Reads.{IsKeyed, put-IsKeyed}
use subspace_transceiver.Store.Gc.{run_gc, run_gc-list}
use subspace_transceiver.Store.Saving.{
  Step, putting, forgetting, timer, run, close-create_persistent,
}

abbrev stale : MemoryChunk
stale = record second { ttl = some 50 }

abbrev two : Store entries_loro
two = put entries_loro stale (put entries_loro first (create_in_memory entries_loro))

two-IsKeyed : IsKeyed entries-IsLoro two.doc
unfolding create_in_memory
two-IsKeyed =
    put-IsKeyed entries-IsLoro stale (put entries_loro first (create_in_memory entries_loro))
      (put-IsKeyed entries-IsLoro first (create_in_memory entries_loro) empty-IsKeyed)

run_gc-list_example :
    Elem first (list entries_loro ((run_gc entries_loro 60 two).0))
    ↔ (Elem first (list entries_loro two) × (is_expired 60 first ≡ false))
run_gc-list_example = run_gc-list entries-IsLoro 60 first two two-IsKeyed

abbrev steps : List (Step entries_loro)
steps = putting first ∷ timer ∷ putting second ∷ forgetting 70 (codes "a") ∷ []

close-create_persistent_example :
    (let s = run entries_loro steps (create_persistent entries_loro none) in
      get entries_loro (codes "b") (create_persistent entries_loro ((close entries_loro s).file))
      ≡ get entries_loro (codes "b") s)
close-create_persistent_example = close-create_persistent entries-IsLoro none steps (codes "b")
