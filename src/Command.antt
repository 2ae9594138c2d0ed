-- ===== src/Command.antt =====
-- fsm.go: `commandPair` and `command`, the unit of replication, and gob as a parameter.
pub mod Effect
use honeybadger.Base.{ℕ, Bytes, List, ◌≡◌}
use honeybadger.Errors.{Result, ok}

-- A set mutation on the log. `expires_at_unix` is an absolute Unix second; 0 persists forever.
pub record CommandPair : Type 0 where
  pub key : Bytes
  pub value : Bytes
  pub expires_at_unix : ℕ

-- The pairs are set, then the keys of `deletes` are deleted.
pub record Command : Type 0 where
  pub pairs : List CommandPair
  pub deletes : List Bytes

-- A committed entry of the Raft log: the fields of `raft.Log` that the code reads.
pub record LogEntry : Type 0 where
  pub index : ℕ
  pub content : Bytes

-- `encoding/gob` on commands.
pub record Gob : Type 0 where
  pub encode : Command → Result Bytes
  pub decode : Bytes → Result Command

-- What `gob` documents of the pair: what was encoded decodes to the same value.
pub record GobLaws (G : Gob) : Type 0 where
  pub decode-encode : (c : Command) (b : Bytes) → G.encode c ≡ ok b → G.decode b ≡ ok c
