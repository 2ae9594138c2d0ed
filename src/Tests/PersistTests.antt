-- ===== src/Tests/PersistTests.antt =====
-- A snapshot of one node that another restores before it replays the log.
use honeybadger.Base.{Bytes, codes, bytes_eq, bytes_lt, ◌≡◌, refl, none, some, [], ◌∷◌, ◌++◌, arith}
use honeybadger.Errors.{done, ok, errors_is}
use honeybadger.Node.{Node, with_store}
use honeybadger.Fsm.{
  apply, apply_log, decode_command, finish, write_command, set_pairs, delete_keys, new_entry,
}
use honeybadger.Fsm.Apply.{contents, applied_log}
use honeybadger.Restore.{
  restore, restore_err, reopen, rollback_and_reopen, close_quietly, close_live, publish, move_dirs,
  swap, stage_snapshot, fill_stage, restore_staged, is_separate,
}
use honeybadger.Restore.Swap.{IsPlaced}
use honeybadger.Persist.{cancel_with, persist_store, persist}
use honeybadger.Persist.Transfer.{restore-persist, snapshot_converges}
use honeybadger.Memory.{
  memory, lookup, insert, erase, insert_all, update_items, set_item, items_at, next_fault, open_dir,
  put_dir, load_stream,
}
use honeybadger.Memory.Stream.{decode_items, encode_items}
use honeybadger.Memory.Laws.{memory_txns, memory_disk}
use honeybadger.Memory.Codec.{codec, read_command}
use honeybadger.Memory.Sinks.{Slot, write_slot, sink, sink_laws}
use honeybadger.Tests.Data.{a, b, two, live, node, quiet, entry_set, entry_drop, content}

program : Unit {0}
unfolding apply apply_log decode_command finish write_command set_pairs delete_keys new_entry
    with_store update_items set_item insert erase insert_all lookup bytes_eq bytes_lt read_command
    errors_is entry_set entry_drop content applied_log restore restore_err reopen
    rollback_and_reopen close_quietly close_live publish move_dirs swap stage_snapshot fill_stage
    restore_staged is_separate items_at next_fault open_dir put_dir load_stream decode_items
    encode_items cancel_with persist_store persist write_slot
program = tt

abbrev fresh : Slot
fresh = record { buffer = []; kept = none; capacity = 100 }

-- The node that persists, once it has also applied the entry that sets `b`.
abbrev ahead : Node memory
ahead = apply_log codec memory (entry_set ∷ []) node

-- The node that restores: it holds an old `b`.
abbrev behind : Node memory
behind = record node {
  store = some (record live { items = (b, record { value = codes "0"; expires_at = 0 }) ∷ [] });
  applied_index = 1;
}

-- What the sink keeps.
unfoldable streamed : Bytes
unfolding encode_items
streamed = encode_items ((a, record { value = codes "1"; expires_at = 0 }) ∷ (b, two) ∷ [])

persisted : (persist sink memory ahead fresh).0 ≡ done
unfolding program
persisted = refl

published : sink_laws.published (persist sink memory ahead fresh).1 ≡ some streamed
unfolding program streamed
published = refl

placed : IsPlaced memory_disk behind
unfolding bytes_eq
placed = record {
  dir_eq = refl;
  home_eq = λ d held. ground arith;
  staging_apart = refl;
  backup_apart = refl;
  scratch_apart = refl;
}

restored : (restore memory streamed behind quiet).0 ≡ ok tt
unfolding program streamed
restored = refl

same_entries :
    applied_log memory memory_txns codec
      ((entry_set ∷ []) ++ (entry_drop ∷ []))
      (restore memory streamed behind quiet).1
    ≡ applied_log memory memory_txns codec ((entry_set ∷ []) ++ (entry_drop ∷ [])) node
unfolding program streamed
same_entries = refl

restore-persist_example :
    ((k : Bytes)
      → contents memory memory_txns (restore memory streamed behind quiet).1 k
        ≡ contents memory memory_txns ahead k)
    × ((restore memory streamed behind quiet).1.applied_index ≡ 0)
restore-persist_example =
    restore-persist sink sink_laws memory memory_txns memory_disk ahead fresh streamed behind quiet
      refl persisted published placed restored

snapshot_converges_example :
    contents memory memory_txns
      (apply_log codec memory
        (entry_set ∷ entry_drop ∷ [])
        (restore memory streamed behind quiet).1)
      b
    ≡ contents memory memory_txns (apply_log codec memory (entry_set ∷ entry_drop ∷ []) node) b
snapshot_converges_example =
    snapshot_converges sink sink_laws memory memory_txns memory_disk codec (entry_set ∷ [])
      (entry_drop ∷ []) node fresh streamed behind quiet refl persisted published placed restored
      same_entries b
