-- ===== src/Epochs/Tests.antt =====
-- Epochs of a second, and the theorems at concrete inputs.
use subspace_transceiver.Prelude.{
  Elem, ◌++◌, false, sym, ℕ, ◌/◌, ◌<◌, ◌≡◌, refl, subst, false, [], ◌∷◌, none, some, some_inj,
  arith, Bool-cases, inl, inr, ◌≤◌, ◌%◌, ◌*◌, ◌+◌,
}
use subspace_transceiver.Prelude.Dict
use subspace_transceiver.Prelude.Numerals.{print, digits}
use subspace_transceiver.Prelude.Sort.{sort_by}
use subspace_transceiver.Prelude.Text.{codes, text_eq}
use subspace_transceiver.Schema.{MemoryChunk}
use subspace_transceiver.Samples.{first}
use subspace_transceiver.Store.{Store, create_in_memory, schedule_save}
use subspace_transceiver.Store
use subspace_transceiver.Store.Entries.{entries_loro, entries-IsLoro, empty-IsKeyed}
use subspace_transceiver.Store.Reads.{IsKeyed, put-IsKeyed}
use subspace_transceiver.Epochs.{
  Calendar, Manager, ordered_epoch_ids, first_found, read_epoch, get, list, gather,
}
use subspace_transceiver.Prelude.Sets.{includes}
use subspace_transceiver.Query.{resolve_heads, pick_winners, group_heads, head_chunks, winner}
use subspace_transceiver.Epochs.Rotation.{AllKeyed}
use subspace_transceiver.Epochs.Scheduler.{run_all}
use subspace_transceiver.Epochs.Collected.{run_all-get}
use subspace_transceiver.Store.Gc.{is_garbage}
use subspace_transceiver.Epochs.Ids.{
  week_ms, day_ms, year_of, year_from, days_before, thursday_of, compute_epoch_id, epoch_start_ms,
}
use subspace_transceiver.Epochs.Ids.Weeks.{before_year, week_start-late}

-- The fifth of March 2026, and the third of February 2027.
abbrev in_march : ℕ
in_march = 1772712000000

abbrev in_february : ℕ
in_february = 1801656000000

march_year : year_of (thursday_of in_march / day_ms) ≡ 56
unfolding year_of year_from days_before
march_year = refl

march_before : before_year in_march ≡ 20454
unfolding year_of year_from days_before
march_before = refl

february_year : year_of (thursday_of in_february / day_ms) ≡ 57
unfolding year_of year_from days_before
february_year = refl

february_before : before_year in_february ≡ 20819
unfolding year_of year_from days_before
february_before = refl

week_start-late_example :
    let start = epoch_start_ms (compute_epoch_id in_february week_ms) week_ms in
    (in_february < start) × (start ≤ in_february + week_ms) × ((start + 3 * day_ms) % week_ms ≡ 0)
week_start-late_example =
    week_start-late in_february (omega arith) (omega (arith, february_year))
      (omega (arith, february_before)) (omega arith)

abbrev seconds : Calendar
seconds = record {
  duration = 1000;
  id_at = λ now. compute_epoch_id now 1000;
  start_of = λ id. epoch_start_ms id 1000;
}

abbrev old_store : Store entries_loro
old_store = Store.put entries_loro first (create_in_memory entries_loro)

abbrev old_manager : Manager entries_loro
old_manager = record {
  retain = 1;
  epochs = (codes "epoch-1", old_store) ∷ [];
  current = codes "epoch-1";
  migrating = false;
  disk = [];
  events = [];
}

old-AllKeyed : AllKeyed entries-IsLoro seconds old_manager
unfolding create_in_memory Dict.get
old-AllKeyed e s h = elim (Bool-cases (text_eq (codes "epoch-1") e)) [
  | inl t ↦
      subst (λ (x : Store entries_loro). IsKeyed entries-IsLoro x.doc) (some_inj (rw t at h))
        (put-IsKeyed entries-IsLoro first (create_in_memory entries_loro) empty-IsKeyed)
  | inr f ↦ cc (rw f at h)
]

absent : Dict.get (compute_epoch_id 5500 1000) old_manager.epochs ≡ none
unfolding compute_epoch_id print digits Dict.get text_eq
absent = refl

old_found : get entries_loro seconds first.id old_manager ≡ some first
unfolding get ordered_epoch_ids first_found read_epoch Store.get Store.put create_in_memory
    schedule_save Dict.get Dict.set text_eq sort_by
old_found = refl

listed : list entries_loro seconds old_manager ≡ first ∷ []
unfolding list gather ordered_epoch_ids Store.list Store.parsed create_in_memory Store.put
    schedule_save resolve_heads pick_winners group_heads head_chunks winner includes Dict.get
    Dict.set text_eq sort_by
listed = refl

nothing_garbage :
    (b : MemoryChunk)
    → Elem b (list entries_loro seconds old_manager)
    → b.id ≡ first.id
    → is_garbage 5500 b ≡ false
nothing_garbage b m e = elim (subst (Elem b) listed m) [
  | inl same ↦ subst (λ x. is_garbage 5500 x ≡ false) (sym same) refl
  | inr n ↦ absurd n
]

run_all-get_example :
    (m : Manager entries_loro) × (b : MemoryChunk) × (run_all entries_loro seconds 5500
        ((5400, old_manager) ∷ (5500, old_manager) ∷ [])
      ≡ run_all entries_loro seconds 5500 ((5400, old_manager) ∷ [])
        ++ m ∷ run_all entries_loro seconds 5500 [])
    × (get entries_loro seconds first.id m ≡ some b)
run_all-get_example =
    run_all-get entries-IsLoro seconds 5500 5500 ((5400, old_manager) ∷ []) [] old_manager first
      old-AllKeyed (inr absent) old_found refl nothing_garbage
