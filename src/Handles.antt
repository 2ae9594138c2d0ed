-- ===== src/Handles.antt =====
-- The open databases of a node: that `Restore` and `closeStore` neither lose nor leak one.
pub mod Kept
use honeybadger.Base.{ℕ, zero, suc, ◌+◌, ◌-◌, ◌≡◌, Bytes, Option, none, some}
use honeybadger.Errors.{Error, ok, err}
use honeybadger.Badger.{Badger, BadgerOptions}
use honeybadger.Node.{Node}

-- What Badger documents of handles. `open_dbs` counts the databases that are open: Open adds one,
-- or fails and adds none; Close gives one up, also where it returns an error; the other calls
-- open and close none.
pub record HandleLaws (B : Badger) : Type 0 where
  pub open_dbs : B.World → ℕ
  pub open_dbs-open_db :
      (o : BadgerOptions B.Tuning) (w : B.World) (d : B.Db)
      → (B.open_db o w).0 ≡ ok d
      → open_dbs (B.open_db o w).1 ≡ suc (open_dbs w)
  pub open_dbs-open_failed :
      (o : BadgerOptions B.Tuning) (w : B.World) (e : Error)
      → (B.open_db o w).0 ≡ err e
      → open_dbs (B.open_db o w).1 ≡ open_dbs w
  pub open_dbs-close : (d : B.Db) (w : B.World) → open_dbs (B.close d w).1 ≡ open_dbs w - 1
  pub open_dbs-load : (d : B.Db) (s : Bytes) (w : B.World) → open_dbs (B.load d s w).2 ≡ open_dbs w
  pub open_dbs-remove_all : (p : Bytes) (w : B.World) → open_dbs (B.remove_all p w).1 ≡ open_dbs w
  pub open_dbs-mkdir_all : (p : Bytes) (w : B.World) → open_dbs (B.mkdir_all p w).1 ≡ open_dbs w
  pub open_dbs-rename : (p q : Bytes) (w : B.World) → open_dbs (B.rename p q w).1 ≡ open_dbs w

-- The database that a node keeps open itself.
abbrev pub held : {A : Type 0} → Option A → ℕ
held none = 0
held (some d) = 1

module _ {B : Badger} where
  -- Besides the databases of others, exactly the node's live store is open.
  abbrev pub IsBalanced : HandleLaws B → ℕ → Node B → B.World → Type 0
  IsBalanced H others n w = H.open_dbs w ≡ others + held n.store
