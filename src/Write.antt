-- ===== src/Write.antt =====
-- write.go: the write calls. `now` gives the readings of the clock.
pub mod Batches
pub mod Effect
use honeybadger.Base.{ℕ, Bytes, List, [], ◌∷◌}
use honeybadger.Errors.{Result, ok, err, done}
use honeybadger.Badger.{Badger}
use honeybadger.Raft.{Raft}
use honeybadger.Command.{Command, Gob}
use honeybadger.Options.{SetOption, Mutation}
use honeybadger.Batch.{set_command, delete_command, batch_command}
use honeybadger.Node.{check_open}
use honeybadger.Db.{Db, submit}

module _ (G : Gob) {B : Badger} {R : Raft} where
  abbrev submit_built : Result Command → Db B R → Result (Unit {0}) × Db B R
  submit_built built db = elim built [ err e ↦ (err e, db) | ok cmd ↦ submit G cmd db ]

  -- `Set` and `SetBytes`
  unfoldable pub set_bytes :
      (ℕ → ℕ) → Bytes → Bytes → List SetOption → Db B R → Result (Unit {0}) × Db B R
  set_bytes now key value opts = submit_built (set_command (now 0) key value opts)

  -- `Delete` and `DeleteBytes`
  unfoldable pub delete_bytes : Bytes → Db B R → Result (Unit {0}) × Db B R
  delete_bytes key = submit_built (delete_command key)

  -- `Batch` once the node is known to be open.
  unfoldable pub batch_open : (ℕ → ℕ) → List Mutation → Db B R → Result (Unit {0}) × Db B R
  batch_open now [] db = (done, db)
  batch_open now (m ∷ ms) db = submit_built (batch_command now (m ∷ ms)) db

  -- `Batch`
  unfoldable pub batch : (ℕ → ℕ) → List Mutation → Db B R → Result (Unit {0}) × Db B R
  batch now ms db = elim (check_open db.node) [ err e ↦ (err e, db) | ok _ ↦ batch_open now ms db ]
