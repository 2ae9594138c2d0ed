-- ===== src/Open/Closes.antt =====
-- What `Close` gives up.
use honeybadger.Base.{ℕ, ◌≡◌, none, true, arith}
use honeybadger.Badger.{Badger}
use honeybadger.Raft.{Raft}
use honeybadger.Close.{close_once, close}
use honeybadger.Db.{Db}
use honeybadger.Handles.{HandleLaws, IsBalanced}
use honeybadger.Handles.Kept.{close_store-IsBalanced}
use honeybadger.Open.{Host}
use honeybadger.Open.Laws.{HostLaws, no_parts}

module _ {B : Badger} {R : Raft} {H : Host B R} (D : HandleLaws B) (P : HostLaws H) where
  -- The first Close of a node gives up all that it holds.
  pub close_lem :
      (others : ℕ) (db : Db B R) (w : B.World)
      → db.close_result ≡ none
      → IsBalanced D others db.node w
      → (P.parts (close db w).1.raft ≡ no_parts) × (D.open_dbs (close db w).2 ≡ others)
  unfolding close close_once
  close_lem others db w fresh h =
      let r₁ = (R.shutdown db.raft).1 in
      let r₂ = (R.close_transport r₁).1 in
      let closing = record (db.node) { closed = true } in
      let given_up = (close_store-IsBalanced B D others closing w h).1 in
      (
        ground (
          arith,
          P.parts-shutdown db.raft,
          P.parts-close_transport r₁,
          P.parts-close_log_store r₂,
        ),
        ground arith,
      )
