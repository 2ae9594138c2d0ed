-- ===== src/Open/Ran.antt =====
-- db.go: the calls that Raft makes of the FSM during an `Open`, and the node that they lead to.
pub mod Steps
use honeybadger.Base.{
  ℕ, ◌≡◌, refl, codes, false, List, pos, Option, some, arith, inl, inr, ap, true, Bool, [], ◌++◌,
  Bool-cases, Option-cases,
}
use honeybadger.Errors.{ok, err, wrap, Result-cases, errors_is_foreign, raft_cant_bootstrap}
use honeybadger.Badger.{Badger}
use honeybadger.Raft.{Raft, Server, voter}
use honeybadger.Command.{Gob}
use honeybadger.Config.{Config}
use honeybadger.Node.{Node}
use honeybadger.Db.{Db}
use honeybadger.Cluster.{Poll, wait_for_leader}
use honeybadger.Open.FsmCalls.{run_calls_raft, run_calls_append}
use honeybadger.Open.{
  await_leader, close_opening, poll_count, new_cluster_leader_timeout, Host, FsmCall, Opening, Exit,
  opened, waiting, failed, gave_up, run_calls, on_failure, drop_transport, drop_log_store,
  drop_store, raft_config, start_raft, bootstrap_raft, open_transport, open_snapshots, open_raft,
  finish_open, resolve_advertise, transport_max_pool, snapshot_retain_count,
}

module _ (G : Gob) {B : Badger} {R : Raft} (H : Host B R) where
  abbrev pub at : Node B → B.World → R.State → Opening B R
  at n w r = record { node = n; raft = r; world = w }

  -- The disk that Raft's calls of the FSM find, after the Raft directory was made.
  abbrev pub made_raft_dir : Config B.Tuning → B.World → B.World
  made_raft_dir cfg w = (B.mkdir_all (H.join cfg.data_dir (codes "raft")) w).1

  -- The state in which NewRaft finds Raft, from the state that the transport is built in: a new
  -- cluster was bootstrapped.
  abbrev pub booted : Config B.Tuning → Bool → R.State → R.State
  booted cfg false r = r
  booted cfg true r =
      let server : Server = record {
        suffrage = voter;
        id = cfg.node_id;
        address = R.local_addr r;
      } in
      (H.bootstrap (raft_config cfg) server r).1

  -- The calls that Raft makes of the FSM from there until Open returns: those of NewRaft, and in a
  -- new cluster those during the wait for the leader.
  abbrev pub run_calls_of : Config B.Tuning → Bool → R.State → List FsmCall
  run_calls_of cfg false r = (H.new_raft (raft_config cfg) r).1
  run_calls_of cfg true r =
      let started = H.new_raft (raft_config cfg) r in started.1 ++ (H.meanwhile started.2).0

  -- The state after the log store, the snapshot store and the transport were built.
  abbrev pub built : Config B.Tuning → Option H.Addr → R.State → R.State
  built cfg addr r =
      let raft_dir = H.join cfg.data_dir (codes "raft") in
      let out = cfg.advanced.log_output in
      let r₁ = (H.new_bolt_store (H.join raft_dir (codes "raft.db")) r).1 in
      let r₂ = (H.new_snapshot_store raft_dir snapshot_retain_count out r₁).1 in
      (H.new_transport cfg.raft_bind addr transport_max_pool out r₂).1

  -- The calls that Raft makes of the FSM in one Open, that starts at its state `r`.
  abbrev pub open_calls : Config B.Tuning → Bool → R.State → List FsmCall
  open_calls cfg new_cluster r = elim (resolve_advertise G H cfg r).0 [
    | err e ↦ []
    | ok addr ↦
        run_calls_of cfg new_cluster
          (booted cfg new_cluster (built cfg addr (resolve_advertise G H cfg r).1))
  ]

  -- The node of an Open that came through is the one that it started with, after the calls.
  abbrev pub Ran : List FsmCall → Node B → B.World → Exit × Opening B R → Type 0
  Ran calls n w (opened, o) =
      (r : R.State) × (o.node ≡ (run_calls G {B = B} {R = R} calls (at n w r)).node)
  Ran calls n w (exit, o) = Unit

  pub Ran-subst :
      (calls : List FsmCall) (n : Node B) (w : B.World) (x y : Exit × Opening B R)
      → x ≡ y
      → Ran calls n w y
      → Ran calls n w x
  Ran-subst calls n w x y e ran = rw e ran

  pub Ran-on_failure :
      (calls : List FsmCall) (n : Node B) (w : B.World) (cleanup : Opening B R → Opening B R)
      (x : Exit × Opening B R)
      → Ran calls n w x
      → Ran calls n w (on_failure cleanup x)
  Ran-on_failure calls n w cleanup (opened, o) ran = ran
  Ran-on_failure calls n w cleanup (waiting, o) ran = tt
  Ran-on_failure calls n w cleanup (failed e, o) ran = tt
  Ran-on_failure calls n w cleanup (gave_up e, o) ran = tt

  pub finish_open-Ran :
      (calls : List FsmCall) (n : Node B) (w : B.World) (cfg : Config B.Tuning)
      (x : Exit × Opening B R) (db : Db B R) (r' : R.State) (w' : B.World)
      → Ran calls n w x
      → finish_open G H cfg (on_failure drop_store x) ≡ some (ok db, r', w')
      → (r : R.State) × (db.node ≡ (run_calls G {B = B} {R = R} calls (at n w r)).node)
  finish_open-Ran calls n w cfg (opened, o) db r' w' (r, same) h = (r, ground arith)
  finish_open-Ran calls n w cfg (waiting, o) db r' w' ran h = absurd (ground arith)
  finish_open-Ran calls n w cfg (failed e, o) db r' w' ran h = absurd (ground arith)
  finish_open-Ran calls n w cfg (gave_up e, o) db r' w' ran h = absurd (ground arith)
