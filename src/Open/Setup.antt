-- ===== src/Open/Setup.antt =====
-- db.go: what `Open` builds its node from, the calls that it makes of the parts that `Raft` stands
-- for, and its deferred cleanups.
--
-- `Host` is what `Open` calls to build the parts that `Raft` stands for: they live in its `State`.
-- Where Raft runs the FSM before a call returns, the call says with which calls, in order. `Opening`
-- is what the local variables hold: the node, and all that lies outside it.
use honeybadger.Base.{ℕ, ◌+◌, ◌/◌, Bytes, List, [], ◌∷◌, Option, none, some, false}
use honeybadger.Errors.{Error, Result}
use honeybadger.Badger.{Badger, BadgerOptions}
use honeybadger.Raft.{Raft, Server}
use honeybadger.Command.{LogEntry, Gob}
use honeybadger.Config.{Config, Writer}
use honeybadger.Node.{Node}
use honeybadger.Fsm.{apply}
use honeybadger.Restore.{restore}
use honeybadger.Db.{Db}
use honeybadger.Close.{close_store, close}
use honeybadger.Cluster.{leader_poll_interval}

abbrev pub snapshot_retain_count : ℕ
snapshot_retain_count = 2

abbrev pub transport_max_pool : ℕ
transport_max_pool = 3

-- `raft.Config` as `Open` sets it, over `raft.DefaultConfig`.
pub record RaftConfig : Type 0 where
  pub local_id : Bytes
  pub snapshot_threshold : ℕ
  pub trailing_logs : ℕ
  pub log_output : Writer

-- A call that Raft makes of the FSM.
pub data FsmCall : Type 0 where
  apply_call : LogEntry → FsmCall
  restore_call : Bytes → FsmCall

pub record Host (B : Badger) (R : Raft) : Type 1 where
  pub Addr : Type 0
  -- filepath.Join, net.ResolveTCPAddr, and badger.DefaultOptions with no logger
  pub join : Bytes → Bytes → Bytes
  pub resolve : Bytes → R.State → Result Addr × R.State
  pub default_options : Bytes → BadgerOptions B.Tuning
  -- the log store, the snapshot store, the transport, and the bootstrap of a cluster
  pub new_bolt_store : Bytes → R.State → Result (Unit {0}) × R.State
  pub new_snapshot_store : Bytes → ℕ → Writer → R.State → Result (Unit {0}) × R.State
  pub new_transport : Bytes → Option Addr → ℕ → Writer → R.State → Result (Unit {0}) × R.State
  pub bootstrap : RaftConfig → Server → R.State → Result (Unit {0}) × R.State
  -- NewRaft, with the calls of the FSM before it returns; and those while the node is not called, as
  -- during the wait for a leader
  pub new_raft : RaftConfig → R.State → Result (Unit {0}) × List FsmCall × R.State
  pub meanwhile : R.State → List FsmCall × R.State

pub record Opening (B : Badger) (R : Raft) : Type 0 where
  pub node : Node B
  pub raft : R.State
  pub world : B.World

-- How the part of `Open` that holds resources comes to its end: it returns a node, or an error with
-- the deferred cleanups armed or disarmed, or it still waits.
pub data Exit : Type 0 where
  opened waiting : Exit
  failed gave_up : Error → Exit

abbrev pub new_cluster_leader_timeout : ℕ
new_cluster_leader_timeout = 30_000_000_000

-- The polls that make up the timeout, and one more.
unfoldable pub poll_count : ℕ
poll_count = new_cluster_leader_timeout / leader_poll_interval + 1

abbrev pub raft_config : {T : Type 0} → Config T → RaftConfig
raft_config cfg = record {
  local_id = cfg.node_id;
  snapshot_threshold = cfg.advanced.snapshot_threshold;
  trailing_logs = cfg.advanced.snapshot_threshold;
  log_output = cfg.advanced.log_output;
}

module _ {B : Badger} where
  -- The node over a store that was just opened.
  abbrev pub fresh_node : BadgerOptions B.Tuning → B.Db → Node B
  fresh_node opts d = record {
    store = some d;
    badger_opts = opts;
    badger_dir = opts.dir;
    applied_index = 0;
    closed = false;
    log_lines = [];
  }

module _ (G : Gob) {B : Badger} {R : Raft} where
  -- The calls of the FSM; Raft logs their errors and goes on.
  unfoldable pub run_calls : List FsmCall → Opening B R → Opening B R
  run_calls [] o = o
  run_calls (apply_call l ∷ calls) o = run_calls calls (record o { node = (apply G B l o.node).1 })
  run_calls (restore_call snap ∷ calls) o =
      let (result, n, w) = restore B snap o.node o.world in
      run_calls calls (record o { node = n; world = w })

module _ {B : Badger} {R : Raft} where
  -- `defer func() { if err != nil { … } }()`
  abbrev pub on_failure : (Opening B R → Opening B R) → Exit × Opening B R → Exit × Opening B R
  on_failure cleanup (failed e, o) = (failed e, cleanup o)
  on_failure cleanup (exit, o) = (exit, o)

  -- The three cleanups, which drop the error of their call.
  abbrev pub drop_transport : Opening B R → Opening B R
  drop_transport o = record o { raft = (R.close_transport o.raft).1 }

  abbrev pub drop_log_store : Opening B R → Opening B R
  drop_log_store o = record o { raft = (R.close_log_store o.raft).1 }

  abbrev pub drop_store : Opening B R → Opening B R
  drop_store o = let (result, n, w) = close_store o.node o.world in record o { node = n; world = w }

  abbrev pub as_db : Config B.Tuning → Opening B R → Db B R
  as_db cfg o = record { node = o.node; raft = o.raft; cfg = cfg; close_result = none }

  -- `db.Close()`
  unfoldable pub close_opening : Config B.Tuning → Opening B R → Opening B R
  close_opening cfg o =
      let (result, db, w) = close (as_db cfg o) o.world in
      record { node = db.node; raft = db.raft; world = w }
