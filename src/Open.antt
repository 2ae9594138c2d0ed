-- ===== src/Open.antt =====
-- db.go: `Open`, with the cleanups that its deferred calls do, and the resolution of the
-- configuration.
mod Setup
pub mod Laws
pub mod Closes
pub mod FsmCalls
pub mod Stages
pub mod Releases
pub mod Returns
pub mod Ran
pub mod Reopened
pub mod Recovery
use honeybadger.Base.{
  ℕ, ◌+◌, ◌/◌, pos, Bytes, codes, is_empty, List, [], ◌∷◌, Option, none, some, Bool, true, false,
  if◌then◌else◌,
}
use honeybadger.Errors.{Error, Result, ok, err, wrap, errors_is_foreign, raft_cant_bootstrap}
use honeybadger.Badger.{Badger, BadgerOptions}
use honeybadger.Raft.{Raft, Server, voter}
use honeybadger.Command.{LogEntry, Gob}
use honeybadger.Config.{Config, Writer, set_defaults, validate_config}
use honeybadger.Options.{OpenOption, parse_open_options}
use honeybadger.Node.{Node}
use honeybadger.Fsm.{apply}
use honeybadger.Restore.{restore}
use honeybadger.Db.{Db}
use honeybadger.Close.{close_store, close}
use honeybadger.Cluster.{Poll, leader_poll_interval, wait_for_leader}
unfoldable pub use Setup.*

module _ (G : Gob) {B : Badger} {R : Raft} (H : Host B R) where
  -- `resolveAdvertise`
  unfoldable pub resolve_advertise : Config B.Tuning → R.State → Result (Option H.Addr) × R.State
  resolve_advertise cfg r =
      if is_empty cfg.advanced.raft_advertise
      then (ok none, r)
      else let (resolved, r') = H.resolve cfg.advanced.raft_advertise r in
        elim resolved [
          | err e ↦ (err (wrap "honeybadger: resolve Config.Advanced.RaftAdvertise" e), r')
          | ok addr ↦ (ok (some addr), r')
        ]

  -- `resolveBadgerOptions`
  unfoldable pub resolve_badger_options : Config B.Tuning → BadgerOptions B.Tuning
  resolve_badger_options cfg = elim cfg.advanced.badger_options [
    | some opts ↦ opts
    | none ↦ H.default_options (H.join cfg.data_dir (codes "badger"))
  ]

  -- The wait for the first election, which ends in a close of the node where it fails.
  unfoldable pub await_leader : Config B.Tuning → ℕ → (ℕ → Poll) → Opening B R → Exit × Opening B R
  await_leader cfg start polls o =
      let (calls, r) = H.meanwhile o.raft in
      let o' = run_calls G calls (record o { raft = r }) in
      elim (wait_for_leader poll_count start (pos new_cluster_leader_timeout) polls) [
        | none ↦ (waiting, o')
        | some found ↦ elim found [
          | ok leader ↦ (opened, o')
          | err e ↦ (gave_up (wrap "honeybadger: open new cluster" e), close_opening cfg o')
        ]
      ]

  -- `raft.NewRaft`
  unfoldable pub start_raft :
      Config B.Tuning → Bool → ℕ → (ℕ → Poll) → Opening B R → Exit × Opening B R
  start_raft cfg new_cluster start polls o =
      let (result, calls, r) = H.new_raft (raft_config cfg) o.raft in
      let o' = run_calls G calls (record o { raft = r }) in
      elim result [
        | err e ↦ (failed (wrap "honeybadger: start raft" e), o')
        | ok _ ↦ if new_cluster then await_leader cfg start polls o' else (opened, o')
      ]

  -- `raft.BootstrapCluster`, for a new cluster only
  unfoldable pub bootstrap_raft :
      Config B.Tuning → Bool → ℕ → (ℕ → Poll) → Opening B R → Exit × Opening B R
  bootstrap_raft cfg false start polls o = start_raft cfg false start polls o
  bootstrap_raft cfg true start polls o =
      let server : Server = record {
        suffrage = voter;
        id = cfg.node_id;
        address = R.local_addr o.raft;
      } in
      let (result, r) = H.bootstrap (raft_config cfg) server o.raft in
      let o' : Opening B R = record o { raft = r } in
      elim result [
        | ok _ ↦ start_raft cfg true start polls o'
        | err e ↦
            if errors_is_foreign e raft_cant_bootstrap
            then start_raft cfg true start polls o'
            else (failed (wrap "honeybadger: bootstrap cluster" e), o')
      ]

  -- `raft.NewTCPTransport`, and the deferred close of the transport
  unfoldable pub open_transport :
      Config B.Tuning → Option H.Addr → Bool → ℕ → (ℕ → Poll) → Opening B R → Exit × Opening B R
  open_transport cfg advertise new_cluster start polls o =
      let (result, r) =
        H.new_transport cfg.raft_bind advertise transport_max_pool cfg.advanced.log_output o.raft in
      let o' : Opening B R = record o { raft = r } in
      elim result [
        | err e ↦ (failed (wrap "honeybadger: open raft transport" e), o')
        | ok _ ↦ on_failure drop_transport (bootstrap_raft cfg new_cluster start polls o')
      ]

  -- `raft.NewFileSnapshotStore`
  unfoldable pub open_snapshots :
      Config B.Tuning → Option H.Addr → Bool → ℕ → (ℕ → Poll) → Opening B R → Exit × Opening B R
  open_snapshots cfg advertise new_cluster start polls o =
      let (result, r) =
        H.new_snapshot_store (H.join cfg.data_dir (codes "raft")) snapshot_retain_count
          cfg.advanced.log_output o.raft in
      let o' : Opening B R = record o { raft = r } in
      elim result [
        | err e ↦ (failed (wrap "honeybadger: open snapshot store" e), o')
        | ok _ ↦ open_transport cfg advertise new_cluster start polls o'
      ]

  -- The Raft directory, the log store, and its deferred close
  unfoldable pub open_raft :
      Config B.Tuning → Option H.Addr → Bool → ℕ → (ℕ → Poll) → Opening B R → Exit × Opening B R
  open_raft cfg advertise new_cluster start polls o =
      let raft_dir = H.join cfg.data_dir (codes "raft") in
      let (made, w) = B.mkdir_all raft_dir o.world in
      let o₁ : Opening B R = record o { world = w } in
      elim made [
        | err e ↦ (failed (wrap "honeybadger: create raft dir" e), o₁)
        | ok _ ↦
            let (result, r) = H.new_bolt_store (H.join raft_dir (codes "raft.db")) o₁.raft in
            let o₂ : Opening B R = record o₁ { raft = r } in
            elim result [
              | err e ↦ (failed (wrap "honeybadger: open raft bolt store" e), o₂)
              | ok _ ↦
                  on_failure drop_log_store
                    (open_snapshots cfg advertise new_cluster start polls o₂)
            ]
      ]

  -- What `Open` returns, or that it still waits.
  abbrev pub finish_open :
      Config B.Tuning → Exit × Opening B R → Option (Result (Db B R) × R.State × B.World)
  finish_open cfg (opened, o) = some (ok (as_db cfg o), o.raft, o.world)
  finish_open cfg (failed e, o) = some (err e, o.raft, o.world)
  finish_open cfg (gave_up e, o) = some (err e, o.raft, o.world)
  finish_open cfg (waiting, o) = none

  -- The database directory, Badger, and its deferred close
  unfoldable pub open_store :
      Config B.Tuning
      → Option H.Addr
      → Bool
      → ℕ
      → (ℕ → Poll)
      → R.State
      → B.World
      → Option (Result (Db B R) × R.State × B.World)
  open_store cfg advertise new_cluster start polls r w =
      let opts = resolve_badger_options cfg in
      let (made, w₁) = B.mkdir_all opts.dir w in
      elim made [
        | err e ↦ some (err (wrap "honeybadger: create badger dir" e), r, w₁)
        | ok _ ↦
            let (result, w₂) = B.open_db opts w₁ in
            elim result [
              | err e ↦ some (err (wrap "honeybadger: open badger" e), r, w₂)
              | ok d ↦ finish_open cfg (
                  on_failure drop_store (
                    open_raft cfg advertise new_cluster start polls
                      (record { node = fresh_node opts d; raft = r; world = w₂ })))
            ]
      ]

  -- `Open`; the wait for a leader starts at the clock reading `start` and observes `polls`.
  unfoldable pub open_db :
      Config B.Tuning
      → List OpenOption
      → ℕ
      → (ℕ → Poll)
      → R.State
      → B.World
      → Option (Result (Db B R) × R.State × B.World)
  open_db config options start polls r w = elim (parse_open_options options) [
    | err e ↦ some (err e, r, w)
    | ok new_cluster ↦ elim (validate_config config) [
      | err e ↦ some (err e, r, w)
      | ok _ ↦
          let cfg = set_defaults config in
          let (advertise, r') = resolve_advertise cfg r in
          elim advertise [
            | err e ↦ some (err e, r', w)
            | ok addr ↦ open_store cfg addr new_cluster start polls r' w
          ]
    ]
  ]
