-- ===== src/Status.antt =====
-- status.go: `Status`, with `State` and `stateFromRaft` of types.go.
use honeybadger.Base.{
  ℕ, Bytes, codes, format_uint, is_empty, bytes_eq, List, [], ◌∷◌, Option, none, some,
  if◌then◌else◌,
}
use honeybadger.Errors.{Result, ok, err}
use honeybadger.Badger.{Badger}
use honeybadger.Raft.{
  Raft, RaftState, raft_follower, raft_candidate, raft_leader, raft_shutdown, raft_other, Server,
}
use honeybadger.Node.{check_open}
use honeybadger.Db.{Db}
use honeybadger.Cluster.{NodeRole, role_none, role_voter, Member, role_from_raft}

-- `State`: the four constants, and any other value of the `uint8`.
pub data State : Type 0 where
  state_follower state_candidate state_leader state_shutdown : State
  state_other : ℕ → State

-- `stateFromRaft`
unfoldable pub state_from_raft : RaftState → State
state_from_raft raft_candidate = state_candidate
state_from_raft raft_leader = state_leader
state_from_raft raft_shutdown = state_shutdown
state_from_raft raft_follower = state_follower
state_from_raft (raft_other n) = state_follower

pub record Status : Type 0 where
  pub local : Member
  pub state : State
  pub leader : Option Member
  pub applied_index : ℕ

-- The loop over the servers of the configuration: the role of the first with this ID.
unfoldable pub local_role : Bytes → List Server → NodeRole
local_role id [] = role_none
local_role id (s ∷ servers) =
    if bytes_eq s.id id then role_from_raft s.suffrage else local_role id servers

abbrev pub known_leader : Bytes → Bytes → Option Member
known_leader leader_addr leader_id =
    if is_empty leader_id
    then none
    else some (record { id = leader_id; raft_addr = leader_addr; role = role_voter })

abbrev pub applied_index_key : Bytes
applied_index_key = codes "honeybadger_applied_index"

module _ {B : Badger} {R : Raft} where
  -- `Status`
  unfoldable pub status : Db B R → Result Status × Db B R
  status db = elim (check_open db.node) [
    | err e ↦ (err e, db)
    | ok _ ↦
        let id = db.cfg.node_id in
        let (state, r₁) = R.state db.raft in
        let (leader_addr, leader_id, r₂) = R.leader_with_id r₁ in
        let (configuration, r₃) = R.get_configuration r₂ in
        let db' : Db B R = record db { raft = r₃ } in
        elim configuration [
          | err e ↦ (err e, db')
          | ok servers ↦ (
            ok (record {
              local = record {
                id = id;
                raft_addr = R.local_addr db.raft;
                role = local_role id servers;
              };
              state = state_from_raft state;
              leader = known_leader leader_addr leader_id;
              applied_index = db.node.applied_index;
            }),
            db',
          )
        ]
  ]

  -- `RawRaftStats`, which does not ask whether the node is closed
  unfoldable pub raw_raft_stats : Db B R → (Bytes → Option Bytes) × Db B R
  raw_raft_stats db =
      let (stats, r) = R.stats db.raft in
      (
        λ key.
            if bytes_eq key applied_index_key
            then some (format_uint db.node.applied_index)
            else stats key,
        record db { raft = r },
      )
