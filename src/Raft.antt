-- ===== src/Raft.antt =====
-- What the code uses of Raft, of its transport and of its log store, as a parameter. `State` is all
-- that these hold and all that the other nodes do, so every call moves it on.
use honeybadger.Base.{ℕ, ℤ, Bytes, List, Option, ◌≡◌}
use honeybadger.Errors.{Error, Result}
use honeybadger.Command.{LogEntry}

-- `raft.RaftState` and `raft.ServerSuffrage`: their constants, and any other value.
pub data RaftState : Type 0 where
  raft_follower raft_candidate raft_leader raft_shutdown : RaftState
  raft_other : ℕ → RaftState

pub data Suffrage : Type 0 where
  voter nonvoter staging : Suffrage
  other_suffrage : ℕ → Suffrage

-- `raft.Server`
pub record Server : Type 0 where
  pub suffrage : Suffrage
  pub id : Bytes
  pub address : Bytes

-- What becomes of a submitted command: its future fails, or it is committed as an entry. In both
-- cases the listed entries are applied to the node's FSM first.
pub data Outcome : Type 0 where
  refused : List LogEntry → Error → Outcome
  committed : List LogEntry → LogEntry → Outcome

pub record Raft : Type 1 where
  pub State : Type 0
  -- State, LeaderWithID (address and ID), the transport's LocalAddr
  pub state : State → RaftState × State
  pub leader_with_id : State → Bytes × Bytes × State
  pub local_addr : State → Bytes
  -- Apply; Barrier with the entries that are applied before it returns
  pub apply : Bytes → ℤ → State → Outcome × State
  pub barrier : ℤ → State → Result (Unit {0}) × List LogEntry × State
  -- AddVoter and RemoveServer, at index 0
  pub add_voter : Bytes → Bytes → ℤ → State → Result (Unit {0}) × State
  pub remove_server : Bytes → ℤ → State → Result (Unit {0}) × State
  pub get_configuration : State → Result (List Server) × State
  pub snapshot : State → Result (Unit {0}) × State
  -- Stats, a map
  pub stats : State → (Bytes → Option Bytes) × State
  -- Shutdown, and the closing of the transport and of the log store
  pub shutdown : State → Result (Unit {0}) × State
  pub close_transport : State → Result (Unit {0}) × State
  pub close_log_store : State → Result (Unit {0}) × State

-- What Raft documents of Apply: the committed entry carries the submitted bytes.
pub record RaftLaws (R : Raft) : Type 0 where
  pub content-apply :
      (content : Bytes) (timeout : ℤ) (s : R.State) (ls : List LogEntry) (l : LogEntry)
      → (R.apply content timeout s).0 ≡ committed ls l
      → l.content ≡ content
