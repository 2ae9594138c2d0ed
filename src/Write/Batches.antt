-- ===== src/Write/Batches.antt =====
-- What a batch that returns nil has done on the node.
use honeybadger.Base.{ℕ, Bytes, ◌≡◌, arith, inl, inr, List, ◌∷◌, Bool-cases}
use honeybadger.Errors.{ok, done, Result-cases}
use honeybadger.Badger.{Badger, TxnLaws}
use honeybadger.Raft.{Raft, RaftLaws}
use honeybadger.Command.{Command, Gob, GobLaws}
use honeybadger.Command.Effect.{after_log}
use honeybadger.Options.{Mutation}
use honeybadger.Node.{check_open}
use honeybadger.Fsm.{apply_log}
use honeybadger.Fsm.Apply.{contents}
use honeybadger.Batch.{batch_command}
use honeybadger.Batch.Order.{singles, batch-order}
use honeybadger.Db.{Db}
use honeybadger.Write.{batch_open, batch}
use honeybadger.Write.Effect.{applied_before, submit_ok}

module _ (B : Badger) (L : TxnLaws B) (R : Raft) (RL : RaftLaws R) (G : Gob) (GL : GobLaws G) where
  -- A batch of at least one mutation that returns nil has taken effect as a whole on this node:
  -- the contents are those of its mutations done one by one as single calls, in order, over the
  -- contents after the entries that Raft tells of applying before it, in the one call with the
  -- encoded command of the batch.
  pub batch_ok :
      (now : ℕ → ℕ) (m : Mutation) (ms : List Mutation) (db : Db B R)
      → (batch G now (m ∷ ms) db).0 ≡ done
      → (cmd : Command) × (batch_command now (m ∷ ms) ≡ ok cmd)
        × ((cs : List Command) × (singles now 0 (m ∷ ms) ≡ ok cs)
            × ((k : Bytes)
                → contents B L (batch G now (m ∷ ms) db).1.node k
                  ≡ after_log cs
                      (contents B L (apply_log G B (applied_before R G cmd db) db.node))
                      k))
  unfolding batch batch_open check_open
  batch_ok now m ms db h = elim (Bool-cases db.node.closed) [
    | inl is_closed ↦ absurd (ground arith)
    | inr is_open ↦ elim (Result-cases (batch_command now (m ∷ ms))) [
      | inr (e, failed) ↦ absurd (ground arith)
      | inl (cmd, built) ↦
          let (cs, same, effect) = batch-order now (m ∷ ms) built in
          let taken = submit_ok B L R RL G GL cmd db (ground arith) in
          let ls = applied_before R G cmd db in
          (
            cmd,
            built,
            (
              cs,
              same,
              λ k. ground (arith, taken k, effect (contents B L (apply_log G B ls db.node)) k),
            ),
          )
    ]
  ]
