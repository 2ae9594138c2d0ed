-- ===== src/Open/Ran/Steps.antt =====
-- db.go: `Open` step by step, and the node that each step leaves.
use honeybadger.Base.{
  ℕ, ◌≡◌, refl, codes, false, List, pos, Option, arith, inl, inr, ap, true, Bool, ◌++◌, Bool-cases,
  Option-cases,
}
use honeybadger.Errors.{wrap, Result-cases, errors_is_foreign, raft_cant_bootstrap}
use honeybadger.Badger.{Badger}
use honeybadger.Raft.{Raft, Server, voter}
use honeybadger.Command.{Gob}
use honeybadger.Config.{Config}
use honeybadger.Cluster.{Poll, wait_for_leader}
use honeybadger.Open.FsmCalls.{run_calls_raft, run_calls_append}
use honeybadger.Open.{
  await_leader, close_opening, poll_count, new_cluster_leader_timeout, Host, FsmCall, Opening, Exit,
  opened, waiting, failed, gave_up, run_calls, on_failure, drop_transport, drop_log_store,
  raft_config, start_raft, bootstrap_raft, open_transport, open_snapshots, open_raft,
  transport_max_pool, snapshot_retain_count,
}
use honeybadger.Open.Ran.{
  made_raft_dir, booted, run_calls_of, built, Ran, Ran-subst, Ran-on_failure,
}

module _ (G : Gob) {B : Badger} {R : Raft} (H : Host B R) where
  module _ (cfg : Config B.Tuning) (start : ℕ) (polls : ℕ → Poll) where
    -- The wait for the leader, over a node that NewRaft's calls have led to.
    await_leader-Ran :
        (calls : List FsmCall) (o : Opening B R)
        → Ran G H
            (calls ++ (H.meanwhile o.raft).0)
            o.node
            o.world
            (await_leader G H cfg start polls (run_calls G calls o))
    unfolding await_leader
    await_leader-Ran calls o =
        let more = (H.meanwhile o.raft).0 in
        let ran = run_calls G calls o in
        let (more', r) = H.meanwhile ran.raft in
        let o' = run_calls G more' (record ran { raft = r }) in
        let same : ran.raft ≡ o.raft =
          ap (λ (p : Opening B R). p.raft) (run_calls_raft G calls o o.raft) in
        let more_eq : more' ≡ more = ap (λ (s : R.State). (H.meanwhile s).0) same in
        let node_eq : o'.node ≡ (run_calls G (calls ++ more) o).node =
          ground (arith, more_eq, run_calls_raft G more' ran r, run_calls_append G calls more o) in
        let wait = wait_for_leader poll_count start (pos new_cluster_leader_timeout) polls in
        let to =
          Ran-subst G H (calls ++ more) o.node o.world
            (await_leader G H cfg start polls (run_calls G calls o)) in
        elim (Option-cases wait) [
          | inl still ↦ to (waiting, o') (ground arith) tt
          | inr (found, ended) ↦ elim (Result-cases found) [
            | inl (leader, won) ↦ to (opened, o') (ground arith) (o.raft, node_eq)
            | inr (e, lost) ↦
                let gone : Exit = gave_up (wrap "honeybadger: open new cluster" e) in
                to (gone, close_opening cfg o') (ground arith) tt
          ]
        ]

    start_raft-Ran :
        (new_cluster : Bool) (o : Opening B R)
        → Ran G H
            (run_calls_of G H cfg new_cluster o.raft)
            o.node
            o.world
            (start_raft G H cfg new_cluster start polls o)
    unfolding start_raft
    start_raft-Ran new_cluster o =
        let started = H.new_raft (raft_config cfg) o.raft in
        let o₁ : Opening B R = record o { raft = started.2 } in
        let o' = run_calls G started.1 o₁ in
        let to =
          Ran-subst G H (run_calls_of G H cfg new_cluster o.raft) o.node o.world
            (start_raft G H cfg new_cluster start polls o) in
        elim (Result-cases started.0) [
          | inr (e, refused) ↦ to (failed (wrap "honeybadger: start raft" e), o') (ground arith) tt
          | inl (_, running) ↦ elim (Bool-cases new_cluster) [
            | inr plain ↦ to (opened, o') (ground arith) (started.2, rw plain refl)
            | inl new ↦
                to (await_leader G H cfg start polls o') (ground arith)
                  (rw new (await_leader-Ran started.1 o₁))
          ]
        ]

    bootstrap_raft-Ran :
        (new_cluster : Bool) (o : Opening B R)
        → Ran G H
            (run_calls_of G H cfg new_cluster (booted G H cfg new_cluster o.raft))
            o.node
            o.world
            (bootstrap_raft G H cfg new_cluster start polls o)
    unfolding bootstrap_raft
    bootstrap_raft-Ran false o = start_raft-Ran false o
    bootstrap_raft-Ran true o =
        let server : Server = record {
          suffrage = voter;
          id = cfg.node_id;
          address = R.local_addr o.raft;
        } in
        let (result, r) = H.bootstrap (raft_config cfg) server o.raft in
        let o' : Opening B R = record o { raft = r } in
        let to =
          Ran-subst G H (run_calls_of G H cfg true r) o.node o.world
            (bootstrap_raft G H cfg true start polls o) in
        elim (Result-cases result) [
          | inl (_, fine) ↦
              to (start_raft G H cfg true start polls o') (ground arith) (start_raft-Ran true o')
          | inr (e, refused) ↦ elim (Bool-cases (errors_is_foreign e raft_cant_bootstrap)) [
            | inr other ↦
                to (failed (wrap "honeybadger: bootstrap cluster" e), o') (ground arith) tt
            | inl again ↦
                to (start_raft G H cfg true start polls o') (ground arith) (start_raft-Ran true o')
          ]
        ]

    open_transport-Ran :
        (addr : Option H.Addr) (new_cluster : Bool) (o : Opening B R)
        → let r =
            (H.new_transport cfg.raft_bind addr transport_max_pool cfg.advanced.log_output
              o.raft).1 in
          Ran G H
            (run_calls_of G H cfg new_cluster (booted G H cfg new_cluster r))
            o.node
            o.world
            (open_transport G H cfg addr new_cluster start polls o)
    unfolding open_transport
    open_transport-Ran addr new_cluster o =
        let made =
          H.new_transport cfg.raft_bind addr transport_max_pool cfg.advanced.log_output o.raft in
        let o' : Opening B R = record o { raft = made.1 } in
        let calls = run_calls_of G H cfg new_cluster (booted G H cfg new_cluster made.1) in
        let x = bootstrap_raft G H cfg new_cluster start polls o' in
        let to =
          Ran-subst G H calls o.node o.world
            (open_transport G H cfg addr new_cluster start polls o) in
        elim (Result-cases made.0) [
          | inr (e, refused) ↦
              to (failed (wrap "honeybadger: open raft transport" e), o') (ground arith) tt
          | inl (_, listening) ↦ to (on_failure drop_transport x) (ground arith) (
              Ran-on_failure G H calls o.node o.world drop_transport x
                (bootstrap_raft-Ran new_cluster o'))
        ]

    pub open_raft-Ran :
        (addr : Option H.Addr) (new_cluster : Bool) (o : Opening B R)
        → Ran G H
            (run_calls_of G H cfg new_cluster
              (booted G H cfg new_cluster (built G H cfg addr o.raft)))
            o.node
            (made_raft_dir G H cfg o.world)
            (open_raft G H cfg addr new_cluster start polls o)
    unfolding open_raft open_snapshots
    open_raft-Ran addr new_cluster o =
        let raft_dir = H.join cfg.data_dir (codes "raft") in
        let made = B.mkdir_all raft_dir o.world in
        let o₁ : Opening B R = record o { world = made.1 } in
        let logs = H.new_bolt_store (H.join raft_dir (codes "raft.db")) o.raft in
        let o₂ : Opening B R = record o₁ { raft = logs.1 } in
        let snaps =
          H.new_snapshot_store raft_dir snapshot_retain_count cfg.advanced.log_output logs.1 in
        let o₃ : Opening B R = record o₁ { raft = snaps.1 } in
        let calls =
          run_calls_of G H cfg new_cluster
            (booted G H cfg new_cluster (built G H cfg addr o.raft)) in
        let x = open_transport G H cfg addr new_cluster start polls o₃ in
        let to =
          Ran-subst G H calls o.node made.1 (open_raft G H cfg addr new_cluster start polls o) in
        elim (Result-cases made.0) [
          | inr (e, refused) ↦
              to (failed (wrap "honeybadger: create raft dir" e), o₁) (ground arith) tt
          | inl (_, there) ↦ elim (Result-cases logs.0) [
            | inr (e, refused) ↦
                to (failed (wrap "honeybadger: open raft bolt store" e), o₂) (ground arith) tt
            | inl (_, logging) ↦ elim (Result-cases snaps.0) [
              | inr (e, refused) ↦
                  to (failed (wrap "honeybadger: open snapshot store" e), drop_log_store o₃)
                    (ground arith) tt
              | inl (_, kept) ↦ to (on_failure drop_log_store x) (ground arith) (
                  Ran-on_failure G H calls o.node made.1 drop_log_store x
                    (open_transport-Ran addr new_cluster o₃))
            ]
          ]
        ]
