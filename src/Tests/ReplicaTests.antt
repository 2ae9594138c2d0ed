-- ===== src/Tests/ReplicaTests.antt =====
-- Three nodes: one applies an entry and persists, the next restores the snapshot and reads.
use honeybadger.Base.{
  codes, put, bytes_eq, bytes_lt, ◌≡◌, refl, true, false, none, some, [], ◌∷◌, arith,
}
use honeybadger.Errors.{done, ok, errors_is}
use honeybadger.Badger.{Stored, visible}
use honeybadger.Command.Effect.{written_log, written, last_pair}
use honeybadger.Node.{check_open, with_store}
use honeybadger.Fsm.{
  apply, apply_log, decode_command, finish, write_command, set_pairs, delete_keys, new_entry,
}
use honeybadger.Fsm.Apply.{contents}
use honeybadger.Restore.{
  restore, restore_err, reopen, rollback_and_reopen, close_quietly, close_live, publish, move_dirs,
  swap, stage_snapshot, fill_stage, restore_staged, is_separate,
}
use honeybadger.Restore.Swap.{IsPlaced}
use honeybadger.Persist.{cancel_with, persist_store, persist}
use honeybadger.Db.{Db, is_leader, on_leader, future_error, not_leader_err}
use honeybadger.Read.{read_value, barrier, prepare_mode, prepare_read, get_bytes}
use honeybadger.Read.Point.{read_clock}
use honeybadger.Read.Barrier.{awaited}
use honeybadger.Memory.{
  memory, lookup, insert, erase, insert_all, update_items, set_item, items_at, next_fault, open_dir,
  put_dir, load_stream, get_item,
}
use honeybadger.Memory.Stream.{decode_items, encode_items}
use honeybadger.Memory.Laws.{memory_txns, memory_disk}
use honeybadger.Memory.Reads.{memory_reads}
use honeybadger.Memory.Codec.{codec, read_command, write_pairs, write_deletes}
use honeybadger.Memory.Consensus.{consensus}
use honeybadger.Memory.Hosts.{host}
use honeybadger.Memory.Sinks.{Slot, write_slot, sink, sink_laws}
use honeybadger.Replicas.{
  Replica, Snapshot, Cluster, decoded, effect, deliver_entry, commit, deliver, snapshot, install,
  Reach, here, next, IsNew,
}
use honeybadger.Replicas.Agreement.{Reach-effect}
use honeybadger.Replicas.Reads.{deliver_log, get_bytes-effect, get_bytes-set_command}
use honeybadger.Tests.Data.{b, live, node, quiet, set_b, entry_set, entry_drop, content, snap}
use honeybadger.Tests.NodeData.{leader, cluster, clock, opts, linearizable, accepted_b}

program : Unit {0}
unfolding apply apply_log decode_command finish write_command set_pairs delete_keys new_entry
    with_store check_open update_items set_item insert erase insert_all lookup get_item bytes_eq
    bytes_lt read_command write_pairs write_deletes errors_is entry_set entry_drop content restore
    restore_err reopen rollback_and_reopen close_quietly close_live publish move_dirs swap
    stage_snapshot fill_stage restore_staged is_separate items_at next_fault open_dir put_dir
    load_stream decode_items encode_items cancel_with persist_store persist write_slot snap
    get_bytes prepare_read prepare_mode barrier read_value on_leader future_error not_leader_err
    written_log written last_pair
program = tt

abbrev pristine : Replica memory
pristine = record {
  node = record node { store = some (record live { items = [] }); applied_index = 0 };
  world = quiet;
  passed = [];
  lost = false;
}

abbrev start : Cluster memory
start = record { log = []; replicas = λ i. pristine; snapshots = λ slot. none }

new : IsNew memory_txns start
unfolding lookup
new = record {
  log_eq = refl;
  passed_eq = λ i. refl;
  empty = λ i k. refl;
  no_snapshot = λ slot. refl;
}

-- The node that has applied the first entry, its snapshot, and the node that has restored it.
abbrev first : Replica memory
first = deliver_entry codec memory entry_set pristine

abbrev taken : Snapshot
taken = record { label = entry_set ∷ []; content = snap; tainted = first.lost }

abbrev second : Replica memory
second = record {
  node = (restore memory snap pristine.node quiet).1;
  world = (restore memory snap pristine.node quiet).2;
  passed = entry_set ∷ [];
  lost = first.lost;
}

abbrev fresh : Slot
fresh = record { buffer = []; kept = none; capacity = 100 }

persisted : (persist sink memory first.node fresh).0 ≡ done
unfolding program
persisted = refl

published : sink_laws.published (persist sink memory first.node fresh).1 ≡ some snap
unfolding program
published = refl

not_missed : first.lost ≡ false
unfolding program
not_missed = refl

placed : IsPlaced memory_disk pristine.node
unfolding bytes_eq
placed = record {
  dir_eq = refl;
  home_eq = λ d held. ground arith;
  staging_apart = refl;
  backup_apart = refl;
  scratch_apart = refl;
}

restored : (restore memory snap pristine.node quiet).0 ≡ ok tt
unfolding program
restored = refl

abbrev Reached : Cluster memory → Type 0
Reached = Reach memory_disk codec host sink_laws start

abbrev one_applied : Cluster memory
one_applied = record {
  log = entry_set ∷ [];
  replicas = put (λ i. pristine) 0 first;
  snapshots = λ slot. none;
}

abbrev one_taken : Cluster memory
one_taken = record one_applied { snapshots = put (λ slot. none) 0 (some taken) }

abbrev two_committed : Cluster memory
two_committed = record {
  log = entry_set ∷ entry_drop ∷ [];
  replicas = put (put (λ i. pristine) 0 first) 1 (second);
  snapshots = put (λ slot. none) 0 (some taken);
}

reach_applied : Reached one_applied
reach_applied = next (next here (commit entry_set)) (deliver 0 entry_set [] refl)

reach_taken : Reached one_taken
reach_taken =
    next reach_applied (snapshot 0 0 (entry_set ∷ []) [] fresh snap refl refl persisted published)

reach_committed : Reached two_committed
reach_committed =
    next (next reach_taken (install 1 0 taken refl placed restored)) (commit entry_drop)

-- The node is handed the rest of the log.
abbrev two_applied : Cluster memory
two_applied = record two_committed {
  replicas = put two_committed.replicas 1 (deliver_entry codec memory entry_drop second);
}

reach_two : Reached two_applied
reach_two = next reach_committed (deliver 1 entry_drop [] refl)

fine : (two_applied.replicas 1).lost ≡ false
unfolding program
fine = refl

Reach-effect_example :
    contents memory memory_txns (two_applied.replicas 1).node b
    ≡ effect codec (entry_set ∷ entry_drop ∷ []) b
Reach-effect_example = Reach-effect memory_disk codec host sink_laws 1 new reach_two fine refl b

-- Or it reads: the barrier waits for the rest of the log.
abbrev reader : Db memory consensus
reader = record leader { node = second.node; raft = record cluster { backlog = entry_drop ∷ [] } }

all_fine :
    (deliver_log codec memory (awaited consensus codec linearizable reader) second).lost ≡ false
unfolding program
all_fine = refl

got : (get_bytes codec b linearizable reader).0 ≡ ok (codes "2")
unfolding program
got = refl

decodes : codec.decode entry_set.content ≡ ok set_b
unfolding program
decodes = refl

untouched : written_log (decoded codec (entry_drop ∷ [])) b ≡ none
unfolding program
untouched = refl

get_bytes-effect_example :
    (is_leader (consensus.state reader.raft).0 ≡ true)
    × ((d : memory.Db) × ((v : Stored) × (visible
              (read_clock memory memory_txns memory_reads d)
              (effect codec (entry_set ∷ entry_drop ∷ []) b)
            ≡ some v)
          × (v.value ≡ codes "2")))
get_bytes-effect_example =
    get_bytes-effect memory_disk codec memory_reads host sink_laws 1 reader b linearizable
      (codes "2") new reach_committed refl refl all_fine refl got

get_bytes-set_command_example : codes "2" ≡ codes "2"
get_bytes-set_command_example =
    get_bytes-set_command memory_disk codec memory_reads host sink_laws 1 reader b linearizable
      (codes "2") (codes "2") (clock 0) opts set_b [] (entry_drop ∷ []) entry_set new
      reach_committed refl refl all_fine refl got refl accepted_b decodes untouched
