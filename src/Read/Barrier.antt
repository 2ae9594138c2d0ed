-- ===== src/Read/Barrier.antt =====
-- The linearizable read: it runs on a leader, after the entries that the barrier waits for.
use honeybadger.Base.{Bytes, is_negative, ◌≡◌, true, some, arith, inl, inr, Bool-cases, List}
use honeybadger.Errors.{ok, done, Result-cases}
use honeybadger.Badger.{Badger, Stored, TxnLaws, ReadLaws, visible}
use honeybadger.Raft.{Raft}
use honeybadger.Command.{LogEntry, Gob}
use honeybadger.Options.{ReadOptions, read_linearizable, timeout_or}
use honeybadger.Node.{check_open}
use honeybadger.Fsm.{apply_log}
use honeybadger.Db.{Db, is_leader, not_leader_err, future_error, on_leader}
use honeybadger.Read.{barrier, prepare_mode, prepare_read, get_bytes}
use honeybadger.Read.Point.{read_clock, get_bytes_value}

module _ (R : Raft) (G : Gob) {B : Badger} where
  -- The entries that the barrier of a read waits for.
  abbrev pub awaited : ReadOptions → Db B R → List LogEntry
  awaited ro db = (R.barrier (timeout_or ro db.cfg.advanced.apply_timeout) (R.state db.raft).1).1

  prepare_linearizable :
      (ro : ReadOptions) (db : Db B R)
      → ro.mode ≡ read_linearizable
      → (prepare_read G ro db).0 ≡ done
      → (is_leader (R.state db.raft).0 ≡ true)
        × ((prepare_read G ro db).1.node ≡ apply_log G B (awaited ro db) db.node)
  unfolding prepare_read prepare_mode on_leader barrier check_open future_error not_leader_err
  prepare_linearizable ro db mode h = elim (Bool-cases (is_negative ro.timeout)) [
    | inl negative ↦ absurd (ground arith)
    | inr fine ↦ elim (Bool-cases db.node.closed) [
      | inl is_closed ↦ absurd (ground arith)
      | inr is_open ↦ elim (Bool-cases (is_leader (R.state db.raft).0)) [
        | inr follows ↦ absurd (ground arith)
        | inl leads ↦
            let r = (R.state db.raft).1 in
            elim (Result-cases (R.barrier (timeout_or ro db.cfg.advanced.apply_timeout) r).0) [
              | inr (e, failed) ↦ absurd (ground arith)
              | inl (_, passed) ↦ (leads, ground arith)
            ]
      ]
    ]
  ]

  module _ (L : TxnLaws B) (Q : ReadLaws B L) where
    -- A linearizable read that returns a value was served by a leader, and the value is the one
    -- that is visible in the node's store once all entries that the barrier waits for are applied.
    pub get_bytes_linearizable :
        (key : Bytes) (ro : ReadOptions) (db : Db B R) (b : Bytes)
        → ro.mode ≡ read_linearizable
        → (get_bytes G key ro db).0 ≡ ok b
        → (is_leader (R.state db.raft).0 ≡ true)
          × ((d : B.Db) × ((apply_log G B (awaited ro db) db.node).store ≡ some d)
              × ((v : Stored) × (visible (read_clock B L Q d) (L.stored d key) ≡ some v)
                  × (v.value ≡ b)))
    unfolding get_bytes
    get_bytes_linearizable key ro db b mode got = elim (Result-cases (prepare_read G ro db).0) [
      | inr (e, failed) ↦ absurd (ground arith)
      | inl (_, ready) ↦
          let (leads, waited) = prepare_linearizable ro db mode (ground arith) in
          let (d, live, found) = get_bytes_value B L Q R G key ro db b got in
          (leads, (d, ground arith, found))
    ]
