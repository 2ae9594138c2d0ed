-- ===== src/Tests/ThreeNodeTests.antt =====
-- The demo on a network that hands out ports, and on one that has none left.
use honeybadger.Base.{
  ℕ, suc, ◌+◌, ◌*◌, ltb, codes, ◌≡◌, refl, true, false, Bool, Option, none, some, [], length,
  format_uint, bytes_eq, bytes_lt, if◌then◌else◌, digits,
}
use honeybadger.Errors.{ok, err, done, is_ok, foreign, other, errors_join}
use honeybadger.Config.{set_defaults, validate_config}
use honeybadger.Options.{parse_open_options, add_duration}
use honeybadger.Cluster.{Poll, leader_poll_interval, wait_loop, wait_for_leader}
use honeybadger.Close.{close, close_once, close_store}
use honeybadger.Open.{
  run_calls, resolve_advertise, resolve_badger_options, poll_count, await_leader, start_raft,
  bootstrap_raft, open_transport, open_snapshots, open_raft, open_store, open_db,
}
use honeybadger.Open.Laws.{no_parts}
use honeybadger.ThreeNode.{
  Net, Site, Fleet, Ending, returned, panicked, free_port, close_nodes, cleanup, boot_loop,
  boot_nodes, demo_writes,
}
use honeybadger.ThreeNode.Boot.{BootLeaves, boot_nodes-BootLeaves}
use honeybadger.Node.{check_open, with_store}
use honeybadger.Options.{resolve_set_options, resolve_loop, abs_expiry}
use honeybadger.Fsm.{
  apply, apply_log, decode_command, encode_command, finish, write_command, set_pairs, delete_keys,
  new_entry,
}
use honeybadger.Batch.{set_command, batch_command, batch_loop}
use honeybadger.Db.{on_leader, settle, replicate, submit}
use honeybadger.Write.{set_bytes, batch_open, batch}
use honeybadger.Memory.{
  insert, erase, update_items, set_item, World, memory, next_fault, open_dir, put_dir, items_at,
}
use honeybadger.Memory.Codec.{codec, read_command, write_pairs, write_deletes}
use honeybadger.Memory.Consensus.{Cluster, submit_content, consensus}
use honeybadger.Memory.Hosts.{memory_handles, host, host_laws}
use honeybadger.Tests.NodeData.{cluster, leader, clock}

program : Unit {0}
unfolding set_defaults validate_config parse_open_options add_duration wait_loop wait_for_leader
    close close_once close_store run_calls resolve_advertise resolve_badger_options poll_count
    await_leader start_raft bootstrap_raft open_transport open_snapshots open_raft open_store
    open_db next_fault open_dir put_dir items_at bytes_eq errors_join free_port close_nodes cleanup
    boot_loop boot_nodes digits format_uint
program = tt

-- Ports from 9000 on, up to the given one.
abbrev pub ports : ℕ → Net
ports last = record {
  State = ℕ;
  Listener = ℕ;
  listen =
      λ addr next. if ltb next last then (ok next, suc next) else (err (foreign (other 24)), next);
  port = λ l. l;
  close_listener = λ l next. next;
}

abbrev pub idle : Cluster
idle = record cluster { leads = false; servers = []; parts = no_parts }

abbrev pub elected : ℕ → Poll
elected i = record {
  closed = false;
  leader_id = codes "node-1";
  leader_addr = codes "127.0.0.1:9000";
  now = 7 + i * leader_poll_interval;
}

abbrev pub site : Site consensus
site = record { raft = idle; start = 7; polls = elected }

abbrev pub empty : World
empty = record { disk = []; faults = []; handles = 0 }

-- Whether a boot returned, how many nodes it left open, and the open databases.
abbrev pub left : {N : Net} → Option (Ending × Fleet memory consensus N) → Option (Bool × ℕ × ℕ)
left none = none
left (some (returned result, f)) = some (is_ok result, length f.nodes, f.world.handles)
left (some (panicked, f)) = some (false, length f.nodes, f.world.handles)

run_boot :
    left (boot_nodes codec host (ports 9010) (codes "/d") site site site 9000 empty)
    ≡ some (true, 3, 3)
unfolding program
run_boot = refl

-- The third node finds no port: the two that are open stay so.
run_boot_fails :
    left (boot_nodes codec host (ports 9002) (codes "/d") site site site 9000 empty)
    ≡ some (false, 2, 2)
unfolding program
run_boot_fails = refl

boot_nodes-BootLeaves_example :
    BootLeaves memory_handles host_laws 0 3
      (boot_nodes codec host (ports 9002) (codes "/d") site site site 9000 empty)
boot_nodes-BootLeaves_example =
    boot_nodes-BootLeaves memory_handles host_laws codec (ports 9002) (codes "/d") site site site
      9000 empty refl refl refl

writing : Unit {0}
unfolding demo_writes batch_open batch_command batch_loop apply apply_log decode_command
    encode_command finish write_command set_pairs delete_keys new_entry with_store check_open
    update_items set_item insert erase bytes_eq bytes_lt read_command write_pairs write_deletes
    set_bytes batch set_command resolve_set_options resolve_loop abs_expiry submit on_leader
    replicate settle submit_content
writing = tt

written : (demo_writes codec clock clock clock leader).0 ≡ done
unfolding writing
written = refl
