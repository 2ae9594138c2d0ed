-- ===== src/Close/Laws.antt =====
-- `Close`, which runs once.
use honeybadger.Base.{◌≡◌, true, none, arith, inl, inr, Option-cases}
use honeybadger.Badger.{Badger}
use honeybadger.Raft.{Raft}
use honeybadger.Db.{Db}
use honeybadger.Close.{close_store, close_once, close}

module _ {B : Badger} {R : Raft} where
  -- The first Close marks the node closed and leaves it without a store, whatever the parts that
  -- it shuts down return. Each later Close returns the same result and touches nothing.
  pub close_idempotent :
      (db : Db B R) (w v : B.World)
      → db.close_result ≡ none
      → ((close db w).1.node.closed ≡ true)
        × ((close db w).1.node.store ≡ none)
        × (close (close db w).1 v ≡ ((close db w).0, (close db w).1, v))
  unfolding close close_once close_store
  close_idempotent db w v first = elim (Option-cases db.node.store) [
    | inl gone ↦ ground arith
    | inr (d, live) ↦ ground arith
  ]
