-- ===== src/Tests/RecoveryTests.antt =====
-- A node of a cluster that was bootstrapped before comes back from its snapshot, over a database that
-- has gone astray. It is given the first entry again while Open waits for the leader.
use honeybadger.Base.{
  ℕ, ◌+◌, codes, Bytes, ◌≡◌, refl, true, false, List, Option, some, [], ◌∷◌, ◌++◌, arith, bytes_eq,
  bytes_lt,
}
use honeybadger.Errors.{Result, ok, err, done, foreign, errors_is_foreign, raft_cant_bootstrap}
use honeybadger.Badger.{BadgerOptions}
use honeybadger.Config.{set_defaults, validate_config}
use honeybadger.Options.{OpenOption, new_cluster_option, parse_open_options}
use honeybadger.Node.{Node, with_store}
use honeybadger.Fsm.{
  apply, apply_log, decode_command, finish, write_command, set_pairs, delete_keys, new_entry,
}
use honeybadger.Fsm.Apply.{contents, applied_log}
use honeybadger.Restore.{
  restore, restore_err, reopen, rollback_and_reopen, close_quietly, close_live, publish, move_dirs,
  swap, stage_snapshot, fill_stage, restore_staged, wipe_dir, wipe_dirs, load_in_place,
  wipe_and_load, restore_in_place, is_separate,
}
use honeybadger.Restore.Swap.{IsPlaced}
use honeybadger.Db.{Db}
use honeybadger.Cluster.{Poll, wait_loop, wait_for_leader}
use honeybadger.Open.{
  Host, apply_call, restore_call, run_calls, resolve_advertise, resolve_badger_options, start_raft,
  poll_count, await_leader, bootstrap_raft, open_transport, open_snapshots, open_raft, open_store,
  open_db, fresh_node,
}
use honeybadger.Open.Laws.{no_parts}
use honeybadger.Open.Ran.{open_calls}
use honeybadger.Open.Recovery.{store_at, restored_node, left_behind, Restores, open_db_recovers}
use honeybadger.Memory.{
  memory, World, MemoryDb, lookup, insert, erase, insert_all, update_items, set_item, items_at,
  next_fault, open_dir, put_dir, load_stream,
}
use honeybadger.Memory.Stream.{decode_items, encode_items}
use honeybadger.Memory.Laws.{memory_txns, memory_disk}
use honeybadger.Memory.Codec.{codec, read_command, write_pairs, write_deletes}
use honeybadger.Memory.Consensus.{Cluster, consensus}
use honeybadger.Memory.Hosts.{host}
use honeybadger.Tests.Data.{a, b, one, live_dir, node, entry_set, entry_drop, content, snap}
use honeybadger.Tests.NodeData.{cluster, leader, config}

program : Unit {0}
unfolding errors_is_foreign restore restore_err reopen rollback_and_reopen close_quietly close_live
    publish move_dirs swap stage_snapshot fill_stage restore_staged wipe_dir wipe_dirs load_in_place
    wipe_and_load restore_in_place is_separate lookup insert erase insert_all update_items set_item
    items_at next_fault open_dir put_dir load_stream decode_items encode_items bytes_eq bytes_lt
    snap set_defaults validate_config parse_open_options run_calls resolve_advertise
    resolve_badger_options poll_count await_leader wait_loop wait_for_leader start_raft
    bootstrap_raft open_transport open_snapshots open_raft open_store open_db apply apply_log
    decode_command finish write_command set_pairs delete_keys new_entry with_store read_command
    write_pairs write_deletes content entry_set entry_drop applied_log
program = tt

-- Raft has the snapshot, and restores it when it starts.
abbrev restoring : Host memory consensus
restoring = record host {
  bootstrap = λ rc server c. (err (foreign raft_cant_bootstrap), c);
  new_raft = λ rc c. (done, restore_call snap ∷ [], c);
}

abbrev idle : Cluster
idle = record cluster { leads = false; servers = []; backlog = entry_set ∷ []; parts = no_parts }

-- The database on the disk holds `a`, which the snapshot does not.
abbrev astray : World
astray = record { disk = (live_dir, (a, one) ∷ []) ∷ []; faults = []; handles = 0 }

abbrev polls : ℕ → Poll
polls i = record {
  closed = false;
  leader_id = codes "n1";
  leader_addr = codes "10.0.0.1:1";
  now = 7 + i;
}

abbrev again : List OpenOption
again = new_cluster_option ∷ []

-- The first state of all: an empty store.
abbrev empty_node : Node memory
empty_node = record node {
  store = some (record { home = live_dir; items = [] });
  applied_index = 0;
}

abbrev Opened : Type 0
Opened = Db memory consensus × Cluster × World

abbrev result : Option (Result (Db memory consensus) × Cluster × World) → Opened
result (some (ok db, c, w)) = (db, c, w)
result _ = (leader, idle, astray)

abbrev back : Opened
back = result (open_db codec restoring config again 7 polls idle astray)

came_back :
    open_db codec restoring config again 7 polls idle astray ≡ some (ok back.0, back.1, back.2)
unfolding program
came_back = refl

read_options : parse_open_options again ≡ ok true
unfolding program
read_options = refl

asked :
    open_calls codec restoring (set_defaults config) true idle
    ≡ restore_call snap ∷ apply_call entry_set ∷ []
unfolding program
asked = refl

-- The database as Open found it.
abbrev astray_db : MemoryDb
astray_db = record { home = live_dir; items = (a, one) ∷ [] }

abbrev opts : BadgerOptions (Unit {0})
opts = record { dir = live_dir; value_dir = live_dir; tuning = tt }

restores_at :
    (d : MemoryDb)
    → astray_db ≡ d
    → IsPlaced memory_disk (fresh_node {B = memory} opts d)
      × ((restore memory snap (fresh_node opts d) (record astray { handles = 1 })).0 ≡ ok tt)
unfolding program
restores_at d same = (
  record {
    dir_eq = refl;
    home_eq = λ d' held. ground arith;
    staging_apart = refl;
    backup_apart = refl;
    scratch_apart = refl;
  },
  refl,
)

restores :
    Restores memory memory_txns memory_disk codec restoring (some snap) (set_defaults config) astray
unfolding program
restores d opens = restores_at d (ground arith)

held :
    (k : Bytes)
    → left_behind memory memory_txns memory_disk codec restoring
        (some snap)
        (set_defaults config)
        astray
        k
      ≡ contents memory memory_txns (apply_log codec memory (entry_set ∷ []) empty_node) k
unfolding program
held k = refl

abbrev restored : Node memory
restored =
    restored_node memory memory_txns memory_disk codec restoring (some snap) (set_defaults config)
      astray astray_db

found_db :
    (store_at memory memory_txns memory_disk codec restoring (set_defaults config) astray).0
    ≡ ok astray_db
unfolding program
found_db = refl

same_entries :
    applied_log memory memory_txns codec ((entry_set ∷ []) ++ (entry_drop ∷ [])) restored
    ≡ applied_log memory memory_txns codec ((entry_set ∷ []) ++ (entry_drop ∷ [])) empty_node
unfolding program
same_entries = refl

open_db_recovers_example :
    contents memory memory_txns (apply_log codec memory (entry_drop ∷ []) back.0.node) b
    ≡ contents memory memory_txns
        (apply_log codec memory (entry_set ∷ entry_drop ∷ []) empty_node)
        b
open_db_recovers_example =
    open_db_recovers memory memory_txns memory_disk codec restoring (some snap) config again true 7
      polls idle astray back.0 back.1 back.2 astray_db (entry_set ∷ []) (entry_drop ∷ [])
      (entry_set ∷ []) (entry_drop ∷ []) empty_node read_options asked came_back found_db restores
      held refl same_entries b
