-- ===== src/Tests/LockTests.antt =====
-- A schedule over one node: two reads, a restore by swap between their checks, a close of the node,
-- and a read that the flag refuses.
use honeybadger.Base.{ℕ, ◌≡◌, refl, false, [], ◌∷◌, length, arith, inl, inr, bytes_eq, some}
use honeybadger.Errors.{ok, done}
use honeybadger.Restore.{
  staging_dir, move_dirs, publish, close_live, close_quietly, reopen, rollback_and_reopen,
}
use honeybadger.Locks.{
  Use, System, swapping, closing, Step, check_passes, share, load, call, unshare, lock, swap_first,
  swap_close, swap_move, unlock, set_flag, check_fails, close_first, close_forget, NoWriter,
  NoHolder, used, swapped, store_closed, flagged, refused,
}
use honeybadger.Locks.Atomicity.{start, Reach, here, next, Serial}
use honeybadger.Locks.Invariant.{IsExclusive, IsLive}
use honeybadger.Locks.Safety.{Reach-safe, Reach-Serial}
use honeybadger.Locks.Release.{Releases, Reach-Releases}
use honeybadger.Memory.{memory, MemoryDb, World, put_dir, items_at, next_fault, open_dir}
use honeybadger.Tests.Data.{a, b, one, two, node, quiet, live, live_dir}

program : Unit {0}
unfolding swap_first close_live close_quietly move_dirs publish reopen rollback_and_reopen put_dir
    items_at next_fault open_dir bytes_eq
program = tt

abbrev count : Use memory ℕ
count d = (ok (length d.items), d)

-- The staging directory of a restore is filled with two keys.
abbrev staged : World
staged = put_dir (staging_dir live_dir) ((a, one) ∷ (b, two) ∷ []) quiet

abbrev Schedule : Type 0
Schedule = (s : System memory ℕ) × Reach (start node staged) s

abbrev extend : (t : Schedule) {u : System memory ℕ} → Step t.0 u → Schedule
extend t step = (_, next t.1 step)

-- Threads 0 and 1 pass the check.
abbrev checked : Schedule
checked =
    extend (extend (start node staged, here) (check_passes 0 count refl refl))
      (check_passes 1 count refl refl)

checked_quiet : NoWriter checked.0
checked_quiet j = ground arith

-- Thread 0 has loaded the store.
abbrev loaded : Schedule
loaded = extend (extend checked (share 0 count refl checked_quiet)) (load 0 count live refl refl)

abbrev returned : Schedule
returned = extend (extend loaded (call 0 count 0 live refl refl refl)) (unshare 0 (ok 1) refl)

returned_free : NoHolder returned.0
returned_free j = ground arith

-- Thread 2 has closed the live store for the swap.
abbrev store_down : Schedule
store_down =
    extend (extend returned (lock 2 swapping refl (inl refl) returned_free)) (swap_close 2 refl)

abbrev swapped_in : Schedule
swapped_in = extend (extend store_down (swap_move 2 refl)) (unlock 2 refl)

swapped_quiet : NoWriter swapped_in.0
swapped_quiet j = ground arith

-- Thread 1, which passed the check before the restore, reads the restored store.
abbrev restored : MemoryDb
restored = record { home = live_dir; items = (a, one) ∷ (b, two) ∷ [] }

swapped_store : swapped_in.0.node.store ≡ some restored
unfolding program
swapped_store = refl

abbrev read_after : Schedule
read_after =
    let loaded_after =
      extend (extend swapped_in (share 1 count refl swapped_quiet))
        (load 1 count restored refl swapped_store) in
    extend (extend loaded_after (call 1 count 2 restored refl refl swapped_store))
      (unshare 1 (ok 2) refl)

read_after_free : NoHolder read_after.0
read_after_free j = ground arith

read_store : read_after.0.node.store ≡ some restored
unfolding program
read_store = refl

abbrev closed_down : Schedule
closed_down =
    let flagged_ = extend read_after set_flag in
    let locked = extend flagged_ (lock 3 closing refl (inr (inr refl)) read_after_free) in
    let first = extend locked (close_first 3 restored refl read_store) in
    let forgotten = extend first (close_forget 3 done refl) in
    extend (extend forgotten (unlock 3 refl)) (check_fails 1 count refl refl)

closed_quiet : NoWriter closed_down.0
closed_quiet j = ground arith

run_history : closed_down.0.history ≡ (
    refused count
    ∷ store_closed done
    ∷ flagged
    ∷ used count (ok 2)
    ∷ swapped done
    ∷ used count (ok 1)
    ∷ [])
unfolding program
run_history = refl

Reach-safe_example :
    IsExclusive loaded.0.pc
    × IsLive loaded.0.generation loaded.0.node.store loaded.0.pc
    × (loaded.0.stale_use ≡ false)
Reach-safe_example = Reach-safe loaded.1

Reach-Serial_example :
    Serial node staged closed_down.0.history closed_down.0.node closed_down.0.world
Reach-Serial_example = Reach-Serial closed_down.1 closed_quiet

Reach-Releases_example : Releases 2 store_down.0
Reach-Releases_example = Reach-Releases 2 store_down.1 refl
