-- ===== src/Locks.antt =====
-- db.go, fsm.go: `storeMu` and the interleavings that it allows.
--
-- Threads run the users of the store (`withStore`, and the backup of `Persist`), the swap of a
-- restore, the restore in place, and `closeStore`, a shared access at a time. `sync.RWMutex` enters
-- by what it documents: a shared lock is granted while nobody holds it exclusively, an exclusive
-- one while nobody holds it. `closed` is an atomic flag outside the lock.
--
-- `generation` counts the writes to `db.store` and the closes of its database; a call pins the
-- generation that it loaded.
-- `stale_use` records a call on a database of another generation: one that was closed or replaced.
-- `history` lists what the threads have done, newest first.
pub mod Atomicity
pub mod Invariant
pub mod Sections
pub mod Steps
pub mod Safety
pub mod Release
use honeybadger.Base.{
  put, ℕ, suc, ◌==◌, Bytes, ◌≡◌, ◌⊎◌, Bool, true, false, Option, none, some, List, [], ◌∷◌,
  if◌then◌else◌,
}
use honeybadger.Errors.{Error, Result, ok, err, done, err_closed}
use honeybadger.Badger.{Badger}
use honeybadger.Node.{Node, run_on}
use honeybadger.Restore.{
  close_live, move_dirs, wipe_and_load, in_place_failed, backup_dir, swap, restore_in_place,
}
use honeybadger.Close.{close_store}

-- What a call does with the database that it is given, up to its result.
abbrev pub Use : Badger → Type 0 → Type 0
Use B A = B.Db → Result A × B.Db

-- Where a thread stands.
pub data Pc (B : Badger) (A : Type 0) : Type 0 where
  idle : Pc B A
  -- checkOpen has passed; the shared lock is held; db.store is loaded; the deferred RUnlock is due
  passed : Use B A → Pc B A
  shared : Use B A → Pc B A
  pinned : Use B A → ℕ → Pc B A
  returning : Result A → Pc B A
  -- the exclusive lock is held by the swap, before and after the live store is closed
  swapping : Pc B A
  swap_closed : Pc B A
  -- by the restore in place, likewise
  replacing : Bytes → Pc B A
  replace_closed : Bytes → Pc B A
  -- by closeStore, before and after the store's Close
  closing : Pc B A
  close_closed : Result (Unit {0}) → Pc B A
  -- the deferred Unlock is due
  unlocking : Pc B A

-- What a thread has done, as one step of the node.
pub data Event (B : Badger) (A : Type 0) : Type 0 where
  refused : Use B A → Event B A
  used : Use B A → Result A → Event B A
  swapped : Result (Unit {0}) → Event B A
  replaced : Bytes → Result (Unit {0}) → Event B A
  store_closed : Result (Unit {0}) → Event B A
  flagged : Event B A

pub record System (B : Badger) (A : Type 0) : Type 0 where
  pub node : Node B
  pub world : B.World
  pub generation : ℕ
  pub stale_use : Bool
  pub pc : ℕ → Pc B A
  pub history : List (Event B A)

module _ {B : Badger} {A : Type 0} where
  -- Whether a thread holds the lock exclusively, and whether it holds it at all.
  abbrev pub writes : Pc B A → Bool
  writes idle = false
  writes (passed fn) = false
  writes (shared fn) = false
  writes (pinned fn g) = false
  writes (returning r) = false
  writes _ = true

  abbrev pub holds : Pc B A → Bool
  holds idle = false
  holds (passed fn) = false
  holds _ = true

  abbrev pub NoWriter : System B A → Type 0
  NoWriter s = (j : ℕ) → writes (s.pc j) ≡ false

  abbrev pub NoHolder : System B A → Type 0
  NoHolder s = (j : ℕ) → holds (s.pc j) ≡ false

-- The first half of the swap: the old backup is removed, the live store closed.
unfoldable pub swap_first : (B : Badger) → Node B → B.World → Node B × B.World
swap_first B n w = close_live B n (B.remove_all (backup_dir n.badger_dir) w).1

-- The first half of the restore in place: the live store is closed.
unfoldable pub replace_first :
    (B : Badger) → Node B → B.World → Result (Unit {0}) × Node B × B.World
replace_first B n w = elim n.store [
  | none ↦ (done, n, w)
  | some d ↦
      let (closed, w') = B.close d w in
      elim closed [
        | err e ↦ in_place_failed B "close badger" e (record n { store = none }) w'
        | ok _ ↦ (done, record n { store = none }, w')
      ]
]

-- A step of the thread `i`.
pub data Step {B : Badger} {A : Type 0} (s : System B A) : System B A → Type 0 where
  -- checkOpen
  check_fails :
      (i : ℕ) (fn : Use B A)
      → s.pc i ≡ idle
      → s.node.closed ≡ true
      → Step s (record s { history = refused fn ∷ s.history })
  check_passes :
      (i : ℕ) (fn : Use B A)
      → s.pc i ≡ idle
      → s.node.closed ≡ false
      → Step s (record s { pc = put s.pc i (passed fn) })
  -- RLock of withStore, and of Persist, which does not look at the flag
  share :
      (i : ℕ) (fn : Use B A)
      → s.pc i ≡ passed fn
      → NoWriter s
      → Step s (record s { pc = put s.pc i (shared fn) })
  share_backup :
      (i : ℕ) (fn : Use B A)
      → s.pc i ≡ idle
      → NoWriter s
      → Step s (record s { pc = put s.pc i (shared fn) })
  -- the test of db.store, and its load
  load_nil :
      (i : ℕ) (fn : Use B A)
      → s.pc i ≡ shared fn
      → s.node.store ≡ none
      → Step s (record s {
        pc = put s.pc i (returning (err err_closed));
        history = used fn (err err_closed) ∷ s.history;
      })
  load :
      (i : ℕ) (fn : Use B A) (d : B.Db)
      → s.pc i ≡ shared fn
      → s.node.store ≡ some d
      → Step s (record s { pc = put s.pc i (pinned fn s.generation) })
  -- the call on the database that was loaded, live or not
  call :
      (i : ℕ) (fn : Use B A) (g : ℕ) (d : B.Db)
      → s.pc i ≡ pinned fn g
      → g ≡ s.generation
      → s.node.store ≡ some d
      → Step s (record s {
        node = (run_on fn d s.node).1;
        pc = put s.pc i (returning (fn d).0);
        history = used fn (fn d).0 ∷ s.history;
      })
  call_stale :
      (i : ℕ) (fn : Use B A) (g : ℕ) (r : Result A)
      → s.pc i ≡ pinned fn g
      → ¬ (g ≡ s.generation)
      → Step s (record s { stale_use = true; pc = put s.pc i (returning r) })
  unshare :
      (i : ℕ) (r : Result A) → s.pc i ≡ returning r → Step s (record s { pc = put s.pc i idle })
  -- Lock, of the swap, the restore in place, and closeStore
  lock :
      (i : ℕ) (p : Pc B A)
      → s.pc i ≡ idle
      → (p ≡ swapping) ⊎ (((snap : Bytes) × (p ≡ replacing snap)) ⊎ (p ≡ closing))
      → NoHolder s
      → Step s (record s { pc = put s.pc i p })
  swap_close :
      (i : ℕ)
      → s.pc i ≡ swapping
      → Step s (record s {
        node = (swap_first B s.node s.world).0;
        world = (swap_first B s.node s.world).1;
        generation = suc s.generation;
        pc = put s.pc i swap_closed;
      })
  swap_move :
      (i : ℕ)
      → s.pc i ≡ swap_closed
      → Step s (record s {
        node = (move_dirs B s.node s.world).1;
        world = (move_dirs B s.node s.world).2;
        generation = suc s.generation;
        pc = put s.pc i unlocking;
        history = swapped (move_dirs B s.node s.world).0 ∷ s.history;
      })
  replace_close :
      (i : ℕ) (snap : Bytes)
      → s.pc i ≡ replacing snap
      → (replace_first B s.node s.world).0 ≡ done
      → Step s (record s {
        node = (replace_first B s.node s.world).1;
        world = (replace_first B s.node s.world).2;
        generation = suc s.generation;
        pc = put s.pc i (replace_closed snap);
      })
  replace_fail :
      (i : ℕ) (snap : Bytes) (e : Error)
      → s.pc i ≡ replacing snap
      → (replace_first B s.node s.world).0 ≡ err e
      → Step s (record s {
        node = (replace_first B s.node s.world).1;
        world = (replace_first B s.node s.world).2;
        generation = suc s.generation;
        pc = put s.pc i unlocking;
        history = replaced snap (err e) ∷ s.history;
      })
  replace_load :
      (i : ℕ) (snap : Bytes)
      → s.pc i ≡ replace_closed snap
      → Step s (record s {
        node = (wipe_and_load B snap s.node s.world).1;
        world = (wipe_and_load B snap s.node s.world).2;
        generation = suc s.generation;
        pc = put s.pc i unlocking;
        history = replaced snap (wipe_and_load B snap s.node s.world).0 ∷ s.history;
      })
  close_nil :
      (i : ℕ)
      → s.pc i ≡ closing
      → s.node.store ≡ none
      → Step s (record s { pc = put s.pc i unlocking; history = store_closed done ∷ s.history })
  close_first :
      (i : ℕ) (d : B.Db)
      → s.pc i ≡ closing
      → s.node.store ≡ some d
      → Step s (record s {
        world = (B.close d s.world).1;
        generation = suc s.generation;
        pc = put s.pc i (close_closed (B.close d s.world).0);
      })
  close_forget :
      (i : ℕ) (r : Result (Unit {0}))
      → s.pc i ≡ close_closed r
      → Step s (record s {
        node = (let n = s.node in record n { store = none });
        generation = suc s.generation;
        pc = put s.pc i unlocking;
        history = store_closed r ∷ s.history;
      })
  unlock : (i : ℕ) → s.pc i ≡ unlocking → Step s (record s { pc = put s.pc i idle })
  -- closed.Store(true)
  set_flag : Step s (record s {
    node = (let n = s.node in record n { closed = true });
    history = flagged ∷ s.history;
  })
