-- ===== src/Close.antt =====
-- db.go: `Close` and `closeStore`.
pub mod Laws
use honeybadger.Base.{[], ◌∷◌, Option, none, some, true}
use honeybadger.Errors.{Result, done, errors_join}
use honeybadger.Badger.{Badger}
use honeybadger.Raft.{Raft}
use honeybadger.Node.{Node}
use honeybadger.Db.{Db}

module _ {B : Badger} where
  -- The live store is closed and forgotten; a nil store is left alone.
  abbrev close_live_store : Option B.Db → Node B → B.World → Result (Unit {0}) × Node B × B.World
  close_live_store none n w = (done, n, w)
  close_live_store (some d) n w =
      let (result, w') = B.close d w in (result, record n { store = none }, w')

  -- `closeStore`
  unfoldable pub close_store : Node B → B.World → Result (Unit {0}) × Node B × B.World
  close_store n w = close_live_store n.store n w

module _ {B : Badger} {R : Raft} where
  -- The body that `closeOnce` runs.
  unfoldable pub close_once : Db B R → B.World → Result (Unit {0}) × Db B R × B.World
  close_once db w =
      let (stopped, r₁) = R.shutdown db.raft in
      let (transport, r₂) = R.close_transport r₁ in
      let (log_store, r₃) = R.close_log_store r₂ in
      let (store, n, w') = close_store (record (db.node) { closed = true }) w in
      let result = errors_join (stopped ∷ transport ∷ log_store ∷ store ∷ []) in
      (result, record db { node = n; raft = r₃; close_result = some result }, w')

  -- `Close`
  unfoldable pub close : Db B R → B.World → Result (Unit {0}) × Db B R × B.World
  close db w = elim db.close_result [ some result ↦ (result, db, w) | none ↦ close_once db w ]
