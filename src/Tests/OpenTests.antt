-- ===== src/Tests/OpenTests.antt =====
-- `Open` of a first node, with an election that succeeds and one that does not, and restores that
-- leave no database open.
use honeybadger.Base.{
  Option, none, Bool, ℕ, ◌+◌, ◌*◌, codes, bytes_eq, ◌≡◌, refl, true, false, some, List, [], ◌∷◌,
  arith,
}
use honeybadger.Errors.{Result, is_ok, errors_join}
use honeybadger.Config.{set_defaults, validate_config}
use honeybadger.Options.{OpenOption, new_cluster_option, parse_open_options, add_duration}
use honeybadger.Db.{Db}
use honeybadger.Cluster.{Poll, leader_poll_interval, wait_loop, wait_for_leader}
use honeybadger.Close.{close, close_once, close_store}
use honeybadger.Restore.{restore}
use honeybadger.Handles.{IsBalanced}
use honeybadger.Handles.Kept.{restore-IsBalanced}
use honeybadger.Open.{
  run_calls, close_opening, resolve_advertise, resolve_badger_options, poll_count, await_leader,
  start_raft, bootstrap_raft, open_transport, open_snapshots, open_raft, open_store, open_db,
}
use honeybadger.Open.Laws.{Parts, no_parts, all_parts}
use honeybadger.Open.Releases.{Leaves, open_db-Leaves}
use honeybadger.Open.Returns.{open_db_returns}
use honeybadger.Memory.{World, memory, next_fault, open_dir, put_dir, items_at}
use honeybadger.Memory.Codec.{codec}
use honeybadger.Memory.Consensus.{Cluster, consensus}
use honeybadger.Memory.Hosts.{memory_handles, host, host_laws}
use honeybadger.Tests.Data.{node, faulty, snap}
use honeybadger.Tests.NodeData.{cluster, config}

program : Unit {0}
unfolding set_defaults validate_config parse_open_options add_duration wait_loop wait_for_leader
    close close_once close_store run_calls close_opening resolve_advertise resolve_badger_options
    poll_count await_leader start_raft bootstrap_raft open_transport open_snapshots open_raft
    open_store open_db next_fault open_dir put_dir items_at bytes_eq errors_join
program = tt

-- A process that holds nothing of Raft, and a disk with no open database.
abbrev idle : Cluster
idle = record cluster { leads = false; servers = []; parts = no_parts }

abbrev empty : World
empty = record { disk = []; faults = []; handles = 0 }

abbrev elected : ℕ → Poll
elected i = record {
  closed = false;
  leader_id = codes "n1";
  leader_addr = codes "10.0.0.1:1";
  now = 7 + i * leader_poll_interval;
}

-- The clock jumps past the deadline, and no leader is known.
abbrev no_election : ℕ → Poll
no_election i = record {
  closed = false;
  leader_id = [];
  leader_addr = [];
  now = 30_000_000_007 + i * leader_poll_interval;
}

abbrev first : List OpenOption
first = new_cluster_option ∷ []

-- What an `Open` left: whether it returned a node, the parts of Raft, and the open databases.
abbrev left : Option (Result (Db memory consensus) × Cluster × World) → Option (Bool × Parts × ℕ)
left none = none
left (some (result, c, w)) = some (is_ok result, c.parts, w.handles)

run_open : left (open_db codec host config first 7 elected idle empty) ≡ some (true, all_parts, 1)
unfolding program
run_open = refl

run_open_fails :
    left (open_db codec host config first 7 no_election idle empty) ≡ some (false, no_parts, 0)
unfolding program
run_open_fails = refl

open_db-Leaves_example :
    Leaves codec memory_handles host_laws 0
      (open_db codec host config first 7 no_election idle empty)
open_db-Leaves_example =
    open_db-Leaves codec memory_handles host_laws config first 7 no_election idle empty refl

open_db_returns_example :
    (x : Result (Db memory consensus) × Cluster × World) × (open_db codec host config first 7
        elected idle empty
      ≡ some x)
open_db_returns_example =
    open_db_returns codec host config first 7 elected idle empty (λ i. omega arith)

restore-IsBalanced_example :
    IsBalanced memory_handles 0
      (restore memory snap node faulty).1
      (restore memory snap node faulty).2
restore-IsBalanced_example = restore-IsBalanced memory memory_handles 0 snap node faulty refl
