-- ===== src/Store/Entries.antt =====
-- A document as a list of entries, which the tests run the stores on.
use subspace_transceiver.Prelude.{◌≡◌, refl, List, [], ◌∷◌, some, arith}
use subspace_transceiver.Prelude.Dict
use subspace_transceiver.Prelude.Text.{Text, text_eq_iff}
use subspace_transceiver.Store.{Raw, Loro, IsLoro}
use subspace_transceiver.Store.Reads.{IsKeyed}

abbrev pub Entries : Type 0
Entries = (m : List (Text × Raw)) × Dict.Distinct m

abbrev pub set_entry : Text → Raw → Entries → Entries
set_entry k raw d = (Dict.set k raw d.0, Dict.set-Distinct k raw d.0 d.1)

abbrev pub merge : List (Text × Raw) → Entries → Entries
merge [] d = d
merge ((k, raw) ∷ m) d = set_entry k raw (merge m d)

abbrev pub no_entries : Entries
no_entries = ([], tt)

abbrev pub entries_loro : Loro
entries_loro = record {
  Doc = Entries;
  Bytes = Entries;
  empty = no_entries;
  get = λ k d. Dict.get k d.0;
  set = set_entry;
  entries = λ d. d.0;
  snapshot = λ d. d;
  update_from = λ old d. d;
  import_bytes = λ bytes d. some (merge bytes.0 d);
  byte_count = λ bytes. 1;
}

get-merge : (k : Text) (m : List (Text × Raw)) → Dict.get k ((merge m no_entries).0) ≡ Dict.get k m
unfolding Dict.get
get-merge k [] = refl
get-merge k ((j, raw) ∷ m) =
    ground (arith, get-merge k m, Dict.get-set j k raw ((merge m no_entries).0), text_eq_iff j k)

pub entries-IsLoro : IsLoro entries_loro
unfolding Dict.get
entries-IsLoro = record {
  get_empty = λ k. refl;
  get_set = λ k j raw doc. Dict.get-set k j raw doc.0;
  entries_get = λ k doc. refl;
  entries_distinct = λ doc. doc.1;
  snapshot_filled = λ doc. refl;
  import_snapshot = λ doc. (merge doc.0 no_entries, refl, λ k. get-merge k doc.0);
}

pub empty-IsKeyed : IsKeyed entries-IsLoro no_entries
unfolding IsKeyed Dict.get
empty-IsKeyed k c h = cc
