-- ===== src/Open/Reopened.antt =====
-- db.go: what `Open` finds on the disk, and the node that it returns.
use honeybadger.Base.{ℕ, ◌≡◌, List, Option, some, arith, inl, inr, Bool}
use honeybadger.Errors.{ok, Result-cases}
use honeybadger.Badger.{Badger}
use honeybadger.Raft.{Raft}
use honeybadger.Command.{Gob}
use honeybadger.Config.{Config, set_defaults, validate_config}
use honeybadger.Options.{OpenOption, parse_open_options}
use honeybadger.Db.{Db}
use honeybadger.Cluster.{Poll}
use honeybadger.Open.{
  Host, FsmCall, Opening, run_calls, open_raft, open_store, open_db, resolve_advertise,
  resolve_badger_options, fresh_node,
}
use honeybadger.Open.Ran.{
  at, made_raft_dir, booted, run_calls_of, built, open_calls, finish_open-Ran,
}
use honeybadger.Open.Ran.Steps.{open_raft-Ran}

module _ (G : Gob) {B : Badger} {R : Raft} (H : Host B R) where
  -- What an Open found and did: the database it opened, and what the calls of the FSM found.
  abbrev pub Reopened : List FsmCall → Config B.Tuning → B.World → Db B R → Type 0
  Reopened calls cfg w db =
      let opts = resolve_badger_options G H cfg in
      let store = B.open_db opts (B.mkdir_all opts.dir w).1 in
      (d : B.Db) × ((store.0 ≡ ok d)
        × ((r : R.State) × (db.node
              ≡ (run_calls G {B = B} {R = R} calls
                  (at G H (fresh_node opts d) (made_raft_dir G H cfg store.1) r)).node)))

  module _ (start : ℕ) (polls : ℕ → Poll) (db : Db B R) (r' : R.State) (w' : B.World)
      (new_cluster : Bool) where
    open_store-Reopened :
        (cfg : Config B.Tuning) (addr : Option H.Addr) (r : R.State) (w : B.World)
        → open_store G H cfg addr new_cluster start polls r w ≡ some (ok db, r', w')
        → Reopened
            (run_calls_of G H cfg new_cluster (booted G H cfg new_cluster (built G H cfg addr r)))
            cfg
            w
            db
    unfolding open_store
    open_store-Reopened cfg addr r w h =
        let opts = resolve_badger_options G H cfg in
        let made = B.mkdir_all opts.dir w in
        let store = B.open_db opts made.1 in
        elim (Result-cases made.0) [
          | inr (e, refused) ↦ absurd (ground arith)
          | inl (_, there) ↦ elim (Result-cases store.0) [
            | inr (e, refused) ↦ absurd (ground arith)
            | inl (d, opens) ↦
                let o : Opening B R = at G H (fresh_node opts d) store.1 r in
                let x = open_raft G H cfg addr new_cluster start polls o in
                (
                  d,
                  (
                    opens,
                    finish_open-Ran G H _ o.node (made_raft_dir G H cfg store.1) cfg x db r' w'
                        (open_raft-Ran G H cfg start polls addr new_cluster o) (ground arith),
                  ),
                )
          ]
        ]

    pub open_db-Reopened :
        (config : Config B.Tuning) (options : List OpenOption) (r : R.State) (w : B.World)
        → parse_open_options options ≡ ok new_cluster
        → open_db G H config options start polls r w ≡ some (ok db, r', w')
        → Reopened (open_calls G H (set_defaults config) new_cluster r) (set_defaults config) w db
    unfolding open_db
    open_db-Reopened config options r w read h =
        let cfg = set_defaults config in
        let advertise = resolve_advertise G H cfg r in
        elim (Result-cases (validate_config config)) [
          | inr (e, refused) ↦ absurd (ground arith)
          | inl (_, valid) ↦ elim (Result-cases advertise.0) [
            | inr (e, refused) ↦ absurd (ground arith)
            | inl (addr, resolved) ↦
                rw (open_calls, resolved)
                  (open_store-Reopened cfg addr advertise.1 w (ground arith))
          ]
        ]
