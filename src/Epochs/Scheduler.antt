-- ===== src/Epochs/Scheduler.antt =====
-- packages/daemon/src/gc-scheduler.ts over the epoch managers that the daemon gives it, both as the stores
-- to collect and as the managers to rotate. A `forget` takes effect when it is called; one that throws
-- leaves its manager as it is.
use subspace_transceiver.Prelude.{ℕ, List, [], ◌∷◌, or_else, if◌then◌else◌}
use subspace_transceiver.Schema.{MemoryChunk}
use subspace_transceiver.Store.{Loro}
use subspace_transceiver.Store.Gc.{is_garbage}
use subspace_transceiver.Epochs.{Calendar, Manager, list, forget, run_round}

module _ (loro : Loro) (calendar : Calendar) where
  -- The loop of runGC over what `list` returned.
  unfoldable pub collect : ℕ → List MemoryChunk → Manager loro → Manager loro
  collect now [] m = m
  collect now (c ∷ cs) m =
      collect now cs (if is_garbage now c then or_else (forget loro calendar now c.id m) m else m)

  unfoldable pub gc_manager : ℕ → Manager loro → Manager loro
  unfolding collect
  gc_manager now m = collect now (list loro calendar m) m

  -- The first loop of `runAll`, each manager with the time that its collection reads.
  unfoldable pub collect_all : List (ℕ × Manager loro) → List (Manager loro)
  unfolding gc_manager
  collect_all [] = []
  collect_all ((at, m) ∷ ms) = gc_manager at m ∷ collect_all ms

  -- The second loop.
  unfoldable pub rotate_all : ℕ → List (Manager loro) → List (Manager loro)
  rotate_all now [] = []
  rotate_all now (m ∷ ms) = run_round loro calendar now m ∷ rotate_all now ms

  -- `runAll`
  unfoldable pub run_all : ℕ → List (ℕ × Manager loro) → List (Manager loro)
  unfolding collect_all rotate_all
  run_all now ms = rotate_all now (collect_all ms)
