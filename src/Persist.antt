-- ===== src/Persist.antt =====
-- fsm.go: `Snapshot` and the snapshot that `Persist` streams into a sink of Raft. The sink is a
-- parameter. A snapshot holds nothing but the node, so `Persist` runs on the node of its own time.
pub mod Transfer
use honeybadger.Base.{Bytes, List, [], ◌++◌, Option, none, some, ◌≡◌}
use honeybadger.Errors.{Error, Result, ok, err, err_closed, wrap}
use honeybadger.Badger.{Badger}
use honeybadger.Node.{Node}

-- `raft.SnapshotSink`
pub record Sink : Type 1 where
  pub State : Type 0
  pub write : Bytes → State → Result (Unit {0}) × State
  pub close : State → Result (Unit {0}) × State
  pub cancel : State → Result (Unit {0}) × State

-- What Raft documents of a sink. `written` is what Write has taken, `published` the snapshot that
-- Raft keeps of it: Close publishes what was written, Write and Cancel publish nothing.
pub record SinkLaws (K : Sink) : Type 0 where
  pub written : K.State → Bytes
  pub published : K.State → Option Bytes
  pub written-write :
      (chunk : Bytes) (s : K.State)
      → (K.write chunk s).0 ≡ ok tt
      → written (K.write chunk s).1 ≡ written s ++ chunk
  pub published-write : (chunk : Bytes) (s : K.State) → published (K.write chunk s).1 ≡ published s
  pub published-close :
      (s : K.State) → (K.close s).0 ≡ ok tt → published (K.close s).1 ≡ some (written s)
  pub published-cancel :
      (s : K.State) → (K.cancel s).0 ≡ ok tt → published (K.cancel s).1 ≡ published s

module _ (K : Sink) where
  -- Cancel the sink and return an error; a cancel that fails supersedes it.
  unfoldable pub cancel_with : Error → K.State → Result (Unit {0}) × K.State
  cancel_with e s =
      let (cancelled, s') = K.cancel s in
      elim cancelled [ err cancel_err ↦ (err cancel_err, s') | ok _ ↦ (err e, s') ]

  module _ (B : Badger) where
    -- The backup of an open store.
    unfoldable pub persist_store : B.Db → K.State → Result (Unit {0}) × K.State
    persist_store d s =
        let (backed_up, s') = B.backup K.write d s in
        elim backed_up [
          | err e ↦ cancel_with (wrap "honeybadger: backup badger into snapshot" e) s'
          | ok _ ↦ K.close s'
        ]

    -- `Persist`
    unfoldable pub persist : Node B → K.State → Result (Unit {0}) × K.State
    persist n s = elim n.store [ none ↦ cancel_with err_closed s | some d ↦ persist_store d s ]
