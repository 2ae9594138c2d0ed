-- ===== src/Api.antt =====
-- The API of an open node as one type of calls: write.go, read.go, cluster.go and status.go.
--
-- `Call` has a constructor for each call that takes the node's guards, with its arguments; the
-- callback of ViewBadger returns only an error here. `respond` runs the method, and keeps of what it
-- returns the error alone.
pub mod Guards
pub mod Closed
pub mod Follower
use honeybadger.Base.{
  ℕ, ℤ, Bytes, List, [], ◌∷◌, Option, none, some, ◌≡◌, ◌⊎◌, true, false, Bool, not,
}
use honeybadger.Errors.{Error, Result, ok, err, errors_is, invalid_argument}
use honeybadger.Badger.{Badger}
use honeybadger.Raft.{Raft}
use honeybadger.Command.{Gob}
use honeybadger.Options.{
  SetOption, Mutation, ReadMode, read_local, read_linearizable, read_other, ReadOptions,
  ScanOptions,
}
use honeybadger.Db.{Db}
use honeybadger.Write.{set_bytes, delete_bytes, batch}
use honeybadger.Read.{barrier, get_bytes, scan_prefix_bytes, view_badger}
use honeybadger.Cluster.{Member, add_voter, remove_node, members, snapshot}
use honeybadger.Status.{status}

pub data Call (B : Badger) : Type 0 where
  set_call : (ℕ → ℕ) → Bytes → Bytes → List SetOption → Call B
  delete_call : Bytes → Call B
  batch_call : (ℕ → ℕ) → List Mutation → Call B
  get_call : Bytes → ReadOptions → Call B
  scan_call : Bytes → ScanOptions → Call B
  view_call : ReadOptions → Option (B.Txn → Result (Unit {0})) → Call B
  barrier_call : ℤ → Call B
  add_voter_call : Member → Call B
  remove_node_call : Bytes → Call B
  members_call snapshot_call status_call : Call B

abbrev pub is_local : ReadMode → Bool
is_local read_local = true
is_local _ = false

-- The calls that only a leader serves: the writes, of which a batch has a mutation, the changes of
-- the membership, and the reads that are not local.
abbrev pub leader_only : {B : Badger} → Call B → Bool
leader_only (set_call now key value opts) = true
leader_only (delete_call key) = true
leader_only (batch_call now []) = false
leader_only (batch_call now (m ∷ ms)) = true
leader_only (get_call key ro) = not (is_local ro.mode)
leader_only (scan_call prefix so) = not (is_local so.read.mode)
leader_only (view_call ro fn) = not (is_local ro.mode)
leader_only (add_voter_call m) = true
leader_only (remove_node_call id) = true
leader_only _ = false

-- The error of a call, which is nil for `none`.
abbrev pub error_of {ℓ} : {A : Type ℓ} → Result A → Option Error
error_of (ok a) = none
error_of (err e) = some e

-- An error that tells the caller of an argument that no node accepts.
abbrev pub IsInvalid : Error → Type 0
IsInvalid e = errors_is e invalid_argument ≡ true

abbrev pub reply : {B : Badger} {R : Raft} {A : Type 0} → Result A × Db B R → Option Error × Db B R
reply (result, db) = (error_of result, db)

module _ (G : Gob) {B : Badger} {R : Raft} where
  unfoldable pub respond : Call B → Db B R → Option Error × Db B R
  respond (set_call now key value opts) db = reply (set_bytes G now key value opts db)
  respond (delete_call key) db = reply (delete_bytes G key db)
  respond (batch_call now ms) db = reply (batch G now ms db)
  respond (get_call key ro) db = reply (get_bytes G key ro db)
  respond (scan_call prefix so) db = reply (scan_prefix_bytes G prefix so db)
  respond (view_call ro fn) db = reply (view_badger G ro fn db)
  respond (barrier_call timeout) db = reply (barrier G timeout db)
  respond (add_voter_call m) db = reply (add_voter m db)
  respond (remove_node_call id) db = reply (remove_node id db)
  respond members_call db = reply (members db)
  respond snapshot_call db = reply (snapshot db)
  respond status_call db = reply (status db)

  -- The errors of calls that are made one after the other, and the node after them.
  unfoldable pub respond_all : List (Call B) → Db B R → List (Option Error) × Db B R
  respond_all [] db = ([], db)
  respond_all (c ∷ cs) db =
      let (answer, db') = respond c db in
      let (answers, db'') = respond_all cs db' in (answer ∷ answers, db'')
