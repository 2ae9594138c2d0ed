-- ===== src/Cluster.antt =====
-- cluster.go: membership, snapshots and the wait for a leader; the node types of types.go.
pub mod Wait
use honeybadger.Base.{
  ℕ, zero, suc, ℤ, pos, negsuc, ltb, not, Bytes, is_empty, Bool, true, false, List, map, Option,
  none, some, if◌then◌else◌,
}
use honeybadger.Errors.{Result, ok, err, done, err_closed, wrap, sentinel, no_leader, invalid}
use honeybadger.Badger.{Badger}
use honeybadger.Raft.{Raft, Suffrage, voter, nonvoter, staging, other_suffrage, Server}
use honeybadger.Options.{add_duration}
use honeybadger.Node.{check_open}
use honeybadger.Db.{Db, future_error, on_leader}

-- `NodeRole`: the four constants, and any other value of the `uint8`.
pub data NodeRole : Type 0 where
  role_none role_voter role_nonvoter role_staging : NodeRole
  role_other : ℕ → NodeRole

-- `Node`, a server of the cluster.
pub record Member : Type 0 where
  pub id : Bytes
  pub raft_addr : Bytes
  pub role : NodeRole

-- `roleFromRaft`
unfoldable pub role_from_raft : Suffrage → NodeRole
role_from_raft voter = role_voter
role_from_raft nonvoter = role_nonvoter
role_from_raft staging = role_staging
role_from_raft (other_suffrage n) = role_none

abbrev pub member : Server → Member
member s = record { id = s.id; raft_addr = s.address; role = role_from_raft s.suffrage }

-- `node.Role != RoleNone && node.Role != RoleVoter`
abbrev pub bad_role : NodeRole → Bool
bad_role role_none = false
bad_role role_voter = false
bad_role _ = true

module _ {B : Badger} {R : Raft} where
  -- What `AddVoter` and `RemoveNode` make of their future.
  abbrev pub settle_future : Result (Unit {0}) × R.State → Db B R → Result (Unit {0}) × Db B R
  settle_future future db =
      let (result, r) = future in
      let db' : Db B R = record db { raft = r } in
      elim result [ ok _ ↦ (done, db') | err e ↦ future_error e db' ]

  -- `AddVoter`
  unfoldable pub add_voter : Member → Db B R → Result (Unit {0}) × Db B R
  add_voter m db =
      if is_empty m.id
      then (err (invalid "AddVoter: node ID must not be empty"), db)
      else if is_empty m.raft_addr
      then (err (invalid "AddVoter: node RaftAddr must not be empty"), db)
      else if bad_role m.role
      then (err (invalid "AddVoter: role must be RoleNone or RoleVoter"), db)
      else on_leader
          (λ db'.
            settle_future (R.add_voter m.id m.raft_addr db'.cfg.advanced.apply_timeout db'.raft)
              db')
          db

  -- `RemoveNode`
  unfoldable pub remove_node : Bytes → Db B R → Result (Unit {0}) × Db B R
  remove_node id db =
      if is_empty id
      then (err (invalid "RemoveNode: node ID must not be empty"), db)
      else on_leader
          (λ db'. settle_future (R.remove_server id db'.cfg.advanced.apply_timeout db'.raft) db') db

  -- `Members`
  unfoldable pub members : Db B R → Result (List Member) × Db B R
  members db = elim (check_open db.node) [
    | err e ↦ (err e, db)
    | ok _ ↦
        let (configuration, r) = R.get_configuration db.raft in
        let db' : Db B R = record db { raft = r } in
        elim configuration [ err e ↦ (err e, db') | ok servers ↦ (ok (map member servers), db') ]
  ]

  -- `Snapshot`
  unfoldable pub snapshot : Db B R → Result (Unit {0}) × Db B R
  snapshot db = elim (check_open db.node) [
    | err e ↦ (err e, db)
    | ok _ ↦ let (result, r) = R.snapshot db.raft in (result, record db { raft = r })
  ]

-- What one round of `waitForLeader` observes: the closed flag, the leader that Raft knows, and the
-- clock, in nanoseconds.
pub record Poll : Type 0 where
  pub closed : Bool
  pub leader_id : Bytes
  pub leader_addr : Bytes
  pub now : ℕ

-- `time.Now().Before(deadline)`
abbrev pub before : ℕ → ℤ → Bool
before now (pos d) = ltb now d
before now (negsuc d) = false

abbrev pub leader_poll_interval : ℕ
leader_poll_interval = 20_000_000

-- The loop of `waitForLeader` from the round `i` on; `none` means that the fuel ran out.
unfoldable pub wait_loop : ℕ → ℤ → (ℕ → Poll) → ℕ → Option (Result Member)
wait_loop zero deadline polls i = none
wait_loop (suc fuel) deadline polls i =
    let poll = polls i in
    let rest = wait_loop fuel deadline polls (suc i) in
    if poll.closed
    then some (err err_closed)
    else if not (is_empty poll.leader_id)
    then some (ok (record { id = poll.leader_id; raft_addr = poll.leader_addr; role = role_voter }))
    else if not (before poll.now deadline)
    then some (err (wrap "after the timeout" (sentinel no_leader)))
    else rest

-- `waitForLeader`, called at the clock reading `start`.
unfoldable pub wait_for_leader : ℕ → ℕ → ℤ → (ℕ → Poll) → Option (Result Member)
wait_for_leader fuel start timeout polls = wait_loop fuel (add_duration start timeout) polls 0
