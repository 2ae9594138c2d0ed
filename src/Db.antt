-- ===== src/Db.antt =====
-- db.go: an open node, `DB`, and what every call of its API is made of.
use honeybadger.Base.{Bool, true, false, Option, if◌then◌else◌}
use honeybadger.Errors.{
  Error, Result, ok, err, not_leader_error, errors_is_foreign, raft_not_leader,
}
use honeybadger.Badger.{Badger}
use honeybadger.Raft.{Raft, RaftState, raft_leader, Outcome, refused, committed}
use honeybadger.Command.{Command, Gob}
use honeybadger.Config.{Config}
use honeybadger.Node.{Node, check_open}
use honeybadger.Fsm.{encode_command, apply, apply_log}

-- `DB`: the node, the Raft instance with its stores, and the configuration. `close_result` is what
-- `closeOnce` has done: nothing yet, or the retained `closeErr`.
pub record Db (B : Badger) (R : Raft) : Type 0 where
  pub node : Node B
  pub raft : R.State
  pub cfg : Config B.Tuning
  pub close_result : Option (Result (Unit {0}))

abbrev pub is_leader : RaftState → Bool
is_leader raft_leader = true
is_leader _ = false

module _ {B : Badger} {R : Raft} where
  -- `notLeaderErr`
  unfoldable pub not_leader_err : Db B R → Error × Db B R
  not_leader_err db =
      let (leader_addr, leader_id, r) = R.leader_with_id db.raft in
      (not_leader_error leader_id leader_addr, record db { raft = r })

  -- `return db.notLeaderErr()`
  abbrev pub refuse {ℓ} : {A : Type ℓ} → Db B R → Result A × Db B R
  refuse db = let (e, db') = not_leader_err db in (err e, db')

  -- What the calls make of an error of a Raft future.
  unfoldable pub future_error : Error → Db B R → Result (Unit {0}) × Db B R
  future_error e db = if errors_is_foreign e raft_not_leader then refuse db else (err e, db)

  -- The guards that open every leader-only call: not closed, and Raft's state is Leader.
  unfoldable pub on_leader :
      (Db B R → Result (Unit {0}) × Db B R) → Db B R → Result (Unit {0}) × Db B R
  on_leader call db = elim (check_open db.node) [
    | err e ↦ (err e, db)
    | ok _ ↦
        let (state, r) = R.state db.raft in
        let db' : Db B R = record db { raft = r } in
        if is_leader state then call db' else refuse db'
  ]

module _ (G : Gob) {B : Badger} {R : Raft} where
  -- The end of `apply`: the future's error, or the FSM's response.
  unfoldable pub settle : Outcome → Db B R → Result (Unit {0}) × Db B R
  settle (refused ls e) db = future_error e (record db { node = apply_log G B ls db.node })
  settle (committed ls l) db =
      let (response, n) = apply G B l (apply_log G B ls db.node) in
      (response, record db { node = n })

  -- `apply` behind its guards.
  unfoldable pub replicate : Command → Db B R → Result (Unit {0}) × Db B R
  replicate cmd db = elim (encode_command G cmd) [
    | err e ↦ (err e, db)
    | ok content ↦
        let (outcome, r) = R.apply content db.cfg.advanced.apply_timeout db.raft in
        settle outcome (record db { raft = r })
  ]

  -- `(*DB).apply`
  unfoldable pub submit : Command → Db B R → Result (Unit {0}) × Db B R
  submit cmd = on_leader (replicate cmd)
