-- ===== src/Open/Returns.antt =====
-- An `Open` always returns.
use honeybadger.Base.{
  ℕ, ◌+◌, ◌*◌, ◌≤◌, ◌≡◌, codes, List, Bool, true, false, Option, none, some, arith, inl, inr,
  Option-cases,
}
use honeybadger.Errors.{Result, Result-cases}
use honeybadger.Badger.{Badger}
use honeybadger.Raft.{Raft, Server, voter}
use honeybadger.Command.{Gob}
use honeybadger.Config.{Config, set_defaults}
use honeybadger.Options.{OpenOption, parse_open_options}
use honeybadger.Db.{Db}
use honeybadger.Cluster.{Poll, leader_poll_interval}
use honeybadger.Cluster.Wait.{wait_for_leader_lem}
use honeybadger.Open.{
  Host, Opening, Exit, opened, waiting, failed, gave_up, run_calls, on_failure, drop_transport,
  drop_log_store, drop_store, fresh_node, raft_config, resolve_advertise, resolve_badger_options,
  poll_count, new_cluster_leader_timeout, await_leader, start_raft, bootstrap_raft, open_transport,
  open_snapshots, open_raft, finish_open, open_store, open_db, snapshot_retain_count,
  transport_max_pool,
}

module _ (G : Gob) {B : Badger} {R : Raft} (H : Host B R) where
  abbrev Stops : Exit × Opening B R → Type 0
  Stops x = ¬ (x.0 ≡ waiting)

  on_failure-Stops :
      (cleanup : Opening B R → Opening B R) (x : Exit × Opening B R)
      → Stops x
      → Stops (on_failure cleanup x)
  on_failure-Stops cleanup (opened, o) stops = stops
  on_failure-Stops cleanup (waiting, o) stops = stops
  on_failure-Stops cleanup (failed e, o) stops = λ h. ground arith
  on_failure-Stops cleanup (gave_up e, o) stops = λ h. ground arith

  finish_open-Stops :
      (cfg : Config B.Tuning) (x : Exit × Opening B R)
      → Stops x
      → ¬ (finish_open G H cfg (on_failure drop_store x) ≡ none)
  finish_open-Stops cfg (opened, o) stops h = ground arith
  finish_open-Stops cfg (waiting, o) stops h = ground arith
  finish_open-Stops cfg (failed e, o) stops h = ground arith
  finish_open-Stops cfg (gave_up e, o) stops h = ground arith

  module _ (cfg : Config B.Tuning) (start : ℕ) (polls : ℕ → Poll)
      (clock : (i : ℕ) → start + i * leader_poll_interval ≤ (polls i).now) where
    await_leader-Stops : (o : Opening B R) → Stops (await_leader G H cfg start polls o)
    unfolding await_leader poll_count
    await_leader-Stops o h =
        let (r, ended, _) =
          wait_for_leader_lem 1500 start new_cluster_leader_timeout polls clock (omega arith) in
        elim (Result-cases r) [
          | inl (leader, elected) ↦ ground arith
          | inr (e, gone) ↦ ground arith
        ]

    start_raft-Stops :
        (new_cluster : Bool) (o : Opening B R)
        → Stops (start_raft G H cfg new_cluster start polls o)
    unfolding start_raft
    start_raft-Stops new_cluster o h =
        let started = H.new_raft (raft_config cfg) o.raft in
        ground (arith, await_leader-Stops (run_calls G started.1 (record o { raft = started.2 })))

    bootstrap_raft-Stops :
        (new_cluster : Bool) (o : Opening B R)
        → Stops (bootstrap_raft G H cfg new_cluster start polls o)
    unfolding bootstrap_raft
    bootstrap_raft-Stops false o h = start_raft-Stops false o h
    bootstrap_raft-Stops true o h =
        let server : Server = record {
          suffrage = voter;
          id = cfg.node_id;
          address = R.local_addr o.raft;
        } in
        let booted = H.bootstrap (raft_config cfg) server o.raft in
        ground (arith, start_raft-Stops true (record o { raft = booted.1 }))

    open_transport-Stops :
        (addr : Option H.Addr) (new_cluster : Bool) (o : Opening B R)
        → Stops (open_transport G H cfg addr new_cluster start polls o)
    unfolding open_transport
    open_transport-Stops addr new_cluster o h =
        let out = cfg.advanced.log_output in
        let listened = H.new_transport cfg.raft_bind addr transport_max_pool out o.raft in
        let o₁ : Opening B R = record o { raft = listened.1 } in
        let x = bootstrap_raft G H cfg new_cluster start polls o₁ in
        ground (arith, on_failure-Stops drop_transport x (bootstrap_raft-Stops new_cluster o₁))

    open_snapshots-Stops :
        (addr : Option H.Addr) (new_cluster : Bool) (o : Opening B R)
        → Stops (open_snapshots G H cfg addr new_cluster start polls o)
    unfolding open_snapshots
    open_snapshots-Stops addr new_cluster o h =
        let raft_dir = H.join cfg.data_dir (codes "raft") in
        let snaps =
          H.new_snapshot_store raft_dir snapshot_retain_count cfg.advanced.log_output o.raft in
        ground (arith, open_transport-Stops addr new_cluster (record o { raft = snaps.1 }))

    open_raft-Stops :
        (addr : Option H.Addr) (new_cluster : Bool) (o : Opening B R)
        → Stops (open_raft G H cfg addr new_cluster start polls o)
    unfolding open_raft
    open_raft-Stops addr new_cluster o h =
        let raft_dir = H.join cfg.data_dir (codes "raft") in
        let o₁ : Opening B R = record o { world = (B.mkdir_all raft_dir o.world).1 } in
        let logs = H.new_bolt_store (H.join raft_dir (codes "raft.db")) o.raft in
        let o₂ : Opening B R = record o₁ { raft = logs.1 } in
        let x = open_snapshots G H cfg addr new_cluster start polls o₂ in
        ground (arith, on_failure-Stops drop_log_store x (open_snapshots-Stops addr new_cluster o₂))

    open_store-Stops :
        (addr : Option H.Addr) (new_cluster : Bool) (r : R.State) (w : B.World)
        → ¬ (open_store G H cfg addr new_cluster start polls r w ≡ none)
    unfolding open_store
    open_store-Stops addr new_cluster r w h =
        let opts = resolve_badger_options G H cfg in
        let made = B.mkdir_all opts.dir w in
        let store = B.open_db opts made.1 in
        elim (Result-cases store.0) [
          | inr (e, refused) ↦ ground arith
          | inl (d, opens) ↦
              let o : Opening B R = record {
                node = fresh_node opts d;
                raft = r;
                world = store.1;
              } in
              let x = open_raft G H cfg addr new_cluster start polls o in
              ground (arith, finish_open-Stops cfg x (open_raft-Stops addr new_cluster o))
        ]

  open_db-Stops :
      (config : Config B.Tuning) (options : List OpenOption) (start : ℕ) (polls : ℕ → Poll)
      (r : R.State) (w : B.World)
      → ((i : ℕ) → start + i * leader_poll_interval ≤ (polls i).now)
      → ¬ (open_db G H config options start polls r w ≡ none)
  unfolding open_db
  open_db-Stops config options start polls r w clock stuck =
      let cfg = set_defaults config in
      let advertise = resolve_advertise G H cfg r in
      elim (Result-cases (parse_open_options options)) [
        | inr (e, refused) ↦ ground arith
        | inl (new_cluster, parsed) ↦ elim (Result-cases advertise.0) [
          | inr (e, refused) ↦ ground arith
          | inl (addr, resolved) ↦
              ground (arith, open_store-Stops cfg start polls clock addr new_cluster advertise.1 w)
        ]
      ]

  -- `Open` returns a node or an error, whatever the parts that it opens do, if the clock moves on by
  -- at least the poll interval between two polls of its wait for a leader.
  pub open_db_returns :
      (config : Config B.Tuning) (options : List OpenOption) (start : ℕ) (polls : ℕ → Poll)
      (r : R.State) (w : B.World)
      → ((i : ℕ) → start + i * leader_poll_interval ≤ (polls i).now)
      → (x : Result (Db B R) × R.State × B.World) × (open_db G H config options start polls r w
          ≡ some x)
  open_db_returns config options start polls r w clock =
      elim (Option-cases (open_db G H config options start polls r w)) [
        | inr found ↦ found
        | inl stuck ↦ absurd (open_db-Stops config options start polls r w clock stuck)
      ]
