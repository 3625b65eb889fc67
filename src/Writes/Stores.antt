-- ===== src/Writes/Stores.antt =====
-- What the routes rely on of an IMemoryStore, and LoroMemoryStore of packages/core/src/loro-store.ts as one.
use subspace_transceiver.Prelude.{
  none-some, ℕ, ◌≡◌, refl, ap, ◌∙◌, sym, Option, none, some, some_inj, if◌then◌else◌, Bool, true,
  false, Bool-cases, arith, inl, inr,
}
use subspace_transceiver.Prelude.Text.{Text, text_eq, text_eq_refl}
use subspace_transceiver.Schema.{MemoryChunk}
use subspace_transceiver.Store.{
  Raw, json, malformed, read_raw, Loro, IsLoro, Read, read_failed, found, Store, tombstone_of,
}
use subspace_transceiver.Store
use subspace_transceiver.Store.Reads.{get-put}
use subspace_transceiver.Writes.{MemoryStore}

-- What the routes rely on. `IsReady` is what a state needs for what is put to be read, `IsSingle` that it
-- holds no second copy under the id.
pub record IsMemoryStore (store : MemoryStore) : Type 1 where
  pub IsReady : store.State → Type 0
  pub IsSingle : Text → store.State → Type 0
  pub get_put :
      (c : MemoryChunk) (s s' : store.State)
      → IsReady s
      → store.put c s ≡ some s'
      → c.tombstone ≡ false
      → store.get c.id s' ≡ some c
  pub get_alive :
      (j : Text) (c : MemoryChunk) (s : store.State) → store.get j s ≡ some c → c.tombstone ≡ false
  pub get_forget :
      (now : ℕ) (id : Text) (s : store.State)
      → IsSingle id s
      → store.get id (store.forget now id s) ≡ none
  pub get_forget_other :
      (now : ℕ) (id j : Text) (s : store.State)
      → text_eq id j ≡ false
      → store.get j (store.forget now id s) ≡ store.get j s

-- `.catch(() => null)` of a read.
unfoldable pub caught : Read → Option MemoryChunk
caught read_failed = none
caught (found c) = c

unfoldable pub loro_memory_store : Loro → MemoryStore
loro_memory_store loro = record {
  State = Store loro;
  put = λ c s. some (Store.put loro c s);
  get = λ id s. caught (Store.get loro id s);
  forget = λ now id s. Store.forget loro now id s;
}

caught-if :
    (at gone : Bool) (c : MemoryChunk) (other : Read)
    → caught (if at then found (if gone then none else some c) else other)
      ≡ (if at then (if gone then none else some c) else caught other)
unfolding caught
caught-if true gone c other = refl
caught-if false gone c other = refl

pub caught-alive :
    (r : Option Raw) (c : MemoryChunk) → caught (read_raw r) ≡ some c → c.tombstone ≡ false
unfolding caught
caught-alive none c h = cc
caught-alive (some malformed) c h = cc
caught-alive (some (json b)) c h = elim (Bool-cases b.tombstone) [
  | inl t ↦ absurd (none-some (rw t at h))
  | inr f ↦ ap (λ x. x.tombstone) (sym (some_inj (rw f at h)))
]

caught-none :
    (at : Bool) (other : Read)
    → caught (if at then found none else other) ≡ (if at then none else caught other)
unfolding caught
caught-none true other = refl
caught-none false other = refl

loro-put :
    (loro : Loro) (c : MemoryChunk) (s s' : Store loro)
    → IsLoro loro
    → some (Store.put loro c s) ≡ some s'
    → c.tombstone ≡ false
    → caught (Store.get loro c.id s') ≡ some c
loro-put loro c s s' laws e alive =
    ap (λ t. caught (Store.get loro c.id t)) (sym (some_inj e))
    ∙ ap caught ((get-put laws c 0 c.id c.id s).0)
    ∙ caught-if (text_eq c.id c.id) c.tombstone c (Store.get loro c.id s)
    ∙ ground (arith, text_eq_refl c.id, alive)

loro-forget :
    (loro : Loro) (now : ℕ) (id j : Text) (s : Store loro)
    → IsLoro loro
    → caught (Store.get loro j (Store.forget loro now id s))
      ≡ (if text_eq id j then none else caught (Store.get loro j s))
loro-forget loro now id j s laws =
    ap caught ((get-put laws (tombstone_of id now) now id j s).1)
    ∙ caught-none (text_eq id j) (Store.get loro j s)

pub loro_memory_store-IsMemoryStore :
    (loro : Loro) → IsLoro loro → IsMemoryStore (loro_memory_store loro)
unfolding loro_memory_store
loro_memory_store-IsMemoryStore loro laws = record {
  IsReady = λ s. Unit;
  IsSingle = λ id s. Unit;
  get_put = λ c s s' ready e alive. loro-put loro c s s' laws e alive;
  get_alive = λ j c s h. caught-alive (loro.get j s.doc) c (unfold Store.get in h);
  get_forget =
      λ now id s single. loro-forget loro now id id s laws ∙ ground (arith, text_eq_refl id);
  get_forget_other = λ now id j s apart. loro-forget loro now id j s laws ∙ ground (arith, apart);
}
