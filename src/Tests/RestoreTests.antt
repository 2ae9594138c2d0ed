-- ===== src/Tests/RestoreTests.antt =====
-- Restores of a small snapshot, and what faults leave.
use honeybadger.Base.{Bytes, ◌≡◌, ◌⊎◌, refl, false, none, some, [], ◌∷◌, arith, bytes_eq, bytes_lt}
use honeybadger.Errors.{ok, err, wrap, foreign, other}
use honeybadger.Restore.{
  staging_dir, staging_options, restore, restore_err, reopen, rollback_and_reopen, close_quietly,
  close_live, publish, move_dirs, swap, stage_snapshot, fill_stage, restore_staged, wipe_dir,
  wipe_dirs, load_in_place, wipe_and_load, restore_in_place, is_separate,
}
use honeybadger.Restore.Swap.{IsPlaced}
use honeybadger.Restore.Outcome.{restore_ok}
use honeybadger.Restore.Failure.{restore_failed_keeps, staging_failed_untouched}
use honeybadger.Memory.{
  MemoryDb, memory, lookup, insert, insert_all, items_at, next_fault, open_dir, put_dir,
  load_stream,
}
use honeybadger.Memory.Stream.{decode_items}
use honeybadger.Memory.Laws.{memory_txns, memory_disk}
use honeybadger.Tests.Data.{b, two, live_dir, node, split_node, quiet, broken, snap}

program : Unit {0}
unfolding restore restore_err reopen rollback_and_reopen close_quietly close_live publish move_dirs
    swap stage_snapshot fill_stage restore_staged wipe_dir wipe_dirs load_in_place wipe_and_load
    restore_in_place is_separate lookup insert insert_all items_at next_fault open_dir put_dir
    load_stream decode_items bytes_eq bytes_lt snap
program = tt

run_restore :
    ((restore memory snap node quiet).0 ≡ ok tt)
    × ((restore memory snap node quiet).1.store
        ≡ some (record { home = live_dir; items = (b, two) ∷ [] }))
unfolding program
run_restore = (refl, refl)

placed : IsPlaced memory_disk node
unfolding bytes_eq
placed = record {
  dir_eq = refl;
  home_eq = λ d held. ground arith;
  staging_apart = refl;
  backup_apart = refl;
  scratch_apart = refl;
}

restore_ok_example :
    (d : MemoryDb) × ((restore memory snap node quiet).1.store ≡ some d)
    × ((restore memory snap node quiet).1.applied_index ≡ 0)
    × (memory_disk.home d ≡ live_dir)
    × ((k : Bytes) → memory_txns.stored d k ≡ memory_disk.snapshot snap k)
restore_ok_example = restore_ok memory memory_txns memory_disk snap node quiet placed run_restore.0

split_fails :
    (restore memory snap split_node broken).0
    ≡ err (wrap "honeybadger: restore" (wrap "reopen badger" (foreign (other 5))))
unfolding program
split_fails = refl

restore_failed_keeps_example :
    ((restore memory snap split_node broken).1.applied_index ≡ split_node.applied_index)
    × ((restore memory snap split_node broken).1.closed ≡ split_node.closed)
    × (wrap "honeybadger: restore" (wrap "reopen badger" (foreign (other 5)))
        ≡ wrap "honeybadger: restore" (wrap "reopen badger" (foreign (other 5))))
    × ((is_separate memory split_node ≡ false)
        ⊎ ((restore memory snap split_node broken).1.store ≡ none))
restore_failed_keeps_example =
    restore_failed_keeps memory snap split_node broken
      (wrap "honeybadger: restore" (wrap "reopen badger" (foreign (other 5)))) split_fails

together : is_separate memory node ≡ false
unfolding program
together = refl

staging_fails :
    (stage_snapshot memory (staging_options memory node) snap broken).0
    ≡ err (wrap "open staging badger" (foreign (other 5)))
unfolding program
staging_fails = refl

staging_failed_untouched_example :
    ((restore memory snap node broken).0
      ≡ err (wrap "honeybadger: restore" (wrap "open staging badger" (foreign (other 5)))))
    × ((restore memory snap node broken).1.store ≡ node.store)
    × ((restore memory snap node broken).1.applied_index ≡ node.applied_index)
    × ((q k : Bytes)
        → memory_disk.Apart (staging_dir live_dir) q
        → memory_disk.on_disk (restore memory snap node broken).2 q k
          ≡ memory_disk.on_disk broken q k)
staging_failed_untouched_example =
    staging_failed_untouched memory memory_txns memory_disk snap node broken
      (wrap "open staging badger" (foreign (other 5))) together staging_fails
