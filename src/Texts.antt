-- ===== src/Texts.antt =====
-- types.go, options.go: the texts of `NotLeaderError`, `NodeRole`, `State` and `ReadMode`.
pub mod Distinct
use honeybadger.Base.{
  ℕ, Bytes, codes, format_uint, is_empty, not, ◌&&◌, [], ◌∷◌, ◌++◌, if◌then◌else◌,
}
use honeybadger.Options.{ReadMode, read_linearizable, read_local, read_other}
use honeybadger.Cluster.{NodeRole, role_none, role_voter, role_nonvoter, role_staging, role_other}
use honeybadger.Status.{
  State, state_follower, state_candidate, state_leader, state_shutdown, state_other,
}

-- `ErrNotLeader.Error()`
abbrev pub not_leader_text : Bytes
not_leader_text = codes "honeybadger: not the leader"

-- `(*NotLeaderError).Error`
unfoldable pub not_leader_error_text : Bytes → Bytes → Bytes
not_leader_error_text leader_id leader_addr =
    if not (is_empty leader_id) && not (is_empty leader_addr)
    then not_leader_text
      ++ codes " (leader "
      ++ leader_id
      ++ codes " at "
      ++ leader_addr
      ++ codes ")"
    else if not (is_empty leader_addr)
    then not_leader_text ++ codes " (leader at " ++ leader_addr ++ codes ")"
    else not_leader_text

-- `NodeRole.String`
unfoldable pub role_string : NodeRole → Bytes
role_string role_none = codes "None"
role_string role_voter = codes "Voter"
role_string role_nonvoter = codes "Nonvoter"
role_string role_staging = codes "Staging"
role_string (role_other r) = codes "NodeRole(" ++ format_uint r ++ codes ")"

-- `State.String`
unfoldable pub state_string : State → Bytes
state_string state_follower = codes "Follower"
state_string state_candidate = codes "Candidate"
state_string state_leader = codes "Leader"
state_string state_shutdown = codes "Shutdown"
state_string (state_other s) = codes "State(" ++ format_uint s ++ codes ")"

-- `ReadMode.String`
unfoldable pub read_mode_string : ReadMode → Bytes
read_mode_string read_linearizable = codes "Linearizable"
read_mode_string read_local = codes "Local"
read_mode_string (read_other m) = codes "ReadMode(" ++ format_uint m ++ codes ")"
