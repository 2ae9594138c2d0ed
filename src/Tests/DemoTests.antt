-- ===== src/Tests/DemoTests.antt =====
-- The demo on three nodes in memory: the first leads, and each of the others is handed the entries
-- of the writes one by one.
use honeybadger.Base.{
  ℕ, ◌+◌, ◌*◌, codes, ◌≡◌, refl, true, some, List, [], ◌∷◌, arith, digits, format_uint, bytes_eq,
  bytes_lt, has_prefix,
}
use honeybadger.Errors.{ok, errors_join, errors_is, errors_is_foreign}
use honeybadger.Command.{LogEntry}
use honeybadger.Raft.{Server, voter}
use honeybadger.Config.{set_defaults, validate_config}
use honeybadger.Options.{
  parse_open_options, add_duration, resolve_set_options, resolve_loop, abs_expiry, resolve_limit,
}
use honeybadger.Node.{check_open, with_store}
use honeybadger.Fsm.{
  apply, apply_log, decode_command, encode_command, finish, write_command, set_pairs, delete_keys,
  new_entry,
}
use honeybadger.Batch.{set_command, batch_command, batch_loop}
use honeybadger.Db.{on_leader, settle, replicate, submit, not_leader_err, future_error}
use honeybadger.Write.{set_bytes, batch_open, batch}
use honeybadger.Read.{
  read_value, scan_loop, scan_txn, barrier, prepare_mode, prepare_read, get_bytes,
  scan_prefix_bytes,
}
use honeybadger.Cluster.{wait_loop, wait_for_leader, add_voter, role_from_raft}
use honeybadger.Status.{status, state_from_raft, local_role}
use honeybadger.Close.{close, close_once, close_store}
use honeybadger.Open.{
  run_calls, resolve_advertise, resolve_badger_options, poll_count, await_leader, start_raft,
  bootstrap_raft, open_transport, open_snapshots, open_raft, open_store, open_db,
}
use honeybadger.ThreeNode.{
  Site, Fleet, Ending, free_port, close_nodes, cleanup, boot_loop, boot_nodes, demo_writes,
}
use honeybadger.Demo.{
  Times, wait_for_interval, wait_for, wait_for_loop, join_voters, reports_voter, present_leader,
  first_follower, sees_value, misses_key, sees_key, meanwhile, polled, await_voter, await_voters,
  at_node,
}
use honeybadger.Demo.Script.{
  View, form_cluster, read_later, scan_later, demo_reads, demo_ttl, demo, run,
}
use honeybadger.Demo.Calls.{CallLaws}
use honeybadger.Demo.Log.{set_user, set_session, set_users}
use honeybadger.Demo.Returns.{IsTimed}
use honeybadger.Demo.RunReturns.{run_returns}
use honeybadger.Memory.{
  memory, lookup, insert, erase, insert_all, update_items, set_item, get_item, visible_items,
  next_fault, open_dir, put_dir, items_at,
}
use honeybadger.Memory.Codec.{codec, read_command, write_pairs, write_deletes}
use honeybadger.Memory.Consensus.{Cluster, submit_content, consensus}
use honeybadger.Memory.Hosts.{memory_handles, host, host_laws}
use honeybadger.Tests.NodeData.{clock}
use honeybadger.Tests.Data.{content}
use honeybadger.Tests.ThreeNodeTests.{ports, idle, elected, site, empty, left}

parts-submit_content :
    (content : List ℕ) (c : Cluster) → (submit_content content c).1.parts ≡ c.parts
unfolding submit_content
parts-submit_content content c = ground arith

abbrev demo_calls : CallLaws host_laws
demo_calls = record {
  parts-state = λ c. refl;
  parts-leader_with_id = λ c. refl;
  parts-apply = λ content timeout c. parts-submit_content content c;
  parts-add_voter = λ id addr timeout c. refl;
  parts-get_configuration = λ c. refl;
}

program : Unit {0}
unfolding set_defaults validate_config parse_open_options add_duration wait_loop wait_for_leader
    close close_once close_store run_calls resolve_advertise resolve_badger_options poll_count
    await_leader start_raft bootstrap_raft open_transport open_snapshots open_raft open_store
    open_db next_fault open_dir put_dir items_at bytes_eq errors_join free_port close_nodes cleanup
    boot_loop boot_nodes digits format_uint demo_writes batch_open batch_command batch_loop apply
    apply_log decode_command encode_command finish write_command set_pairs delete_keys new_entry
    with_store check_open update_items set_item insert erase insert_all lookup get_item
    visible_items bytes_lt read_command write_pairs write_deletes set_bytes batch set_command
    resolve_set_options resolve_loop abs_expiry resolve_limit submit on_leader replicate settle
    submit_content not_leader_err future_error errors_is errors_is_foreign read_value scan_loop
    scan_txn barrier prepare_mode prepare_read get_bytes scan_prefix_bytes has_prefix add_voter
    role_from_raft status state_from_raft local_role wait_for wait_for_loop join_voters
    reports_voter present_leader first_follower sees_value misses_key sees_key meanwhile polled
    await_voter await_voters at_node form_cluster read_later scan_later demo_reads demo_ttl demo run
    content
program = tt

abbrev times : Times
times = record { start = 7; now = λ i. 7 + i * wait_for_interval }

abbrev pub view : View
view = record {
  sights = λ i. record { leader_start = 7; polls = elected; times = times };
  first_write = clock;
  second_write = λ i. 1_900_000_000_000_000_000;
  third_write = clock;
  replicates = times;
  deletes = times;
  session = times;
}

abbrev pub servers : List Server
servers =
    record { suffrage = voter; id = codes "node-3"; address = codes "127.0.0.1:9002" }
    ∷ record { suffrage = voter; id = codes "node-2"; address = codes "127.0.0.1:9001" }
    ∷ record { suffrage = voter; id = codes "node-1"; address = codes "127.0.0.1:9000" }
    ∷ []

-- The entries of the demo's writes.
abbrev pub expiry : ℕ
expiry = 1_900_000_002

unfoldable entries : List LogEntry
unfolding content
entries =
    record { index = 4; content = content set_user }
    ∷ record { index = 5; content = content (set_session expiry) }
    ∷ record { index = 6; content = content set_users }
    ∷ []

abbrev follower_site : Site consensus
follower_site = record site { raft = record idle { servers = servers; backlog = entries } }

run_demo :
    left (
      run codec host
        (ports 9010)
        (ok (codes "/d"))
        site
        follower_site
        follower_site
        view
        9000
        empty)
    ≡ some (true, 0, 0)
unfolding program entries
run_demo = refl

timed : IsTimed view
timed = record {
  leader_polls = λ n i. omega arith;
  votes = λ n i. omega arith;
  replicates = λ i. omega arith;
  deletes = λ i. omega arith;
  session = λ i. omega arith;
}

run_returns_example :
    (x : Ending × Fleet memory consensus (ports 9010)) × (run codec host
        (ports 9010)
        (ok (codes "/d"))
        site
        follower_site
        follower_site
        view
        9000
        empty
      ≡ some x)
run_returns_example =
    run_returns codec memory_handles host_laws (ports 9010) site follower_site follower_site view
      timed (ok (codes "/d")) 9000 empty refl refl refl (λ i. omega arith) (λ i. omega arith)
      (λ i. omega arith)
