-- ===== src/ThreeNode/Writes.antt =====
-- examples/three-node/main.go: what the demo's writes leave on the leader.
use honeybadger.Base.{
  ℕ, ◌≡◌, ◌∙◌, ap, refl, Bytes, codes, bytes_eq, pos, Option, none, some, List, [], ◌∷◌, arith, inl,
  inr,
}
use honeybadger.Errors.{ok, done, Result-cases}
use honeybadger.Badger.{Badger, Stored, TxnLaws}
use honeybadger.Raft.{Raft, RaftLaws}
use honeybadger.Command.{Command, Gob, GobLaws}
use honeybadger.Command.Effect.{after_log, after, written, last_pair}
use honeybadger.Options.{
  Mutation, with_ttl, set_bytes_op, delete_bytes_op, resolve_set_options, resolve_loop,
}
use honeybadger.Batch.{set_command, delete_command}
use honeybadger.Batch.Order.{singles}
use honeybadger.Fsm.{apply_log}
use honeybadger.Fsm.Apply.{contents}
use honeybadger.Db.{Db}
use honeybadger.Write.{set_bytes, batch}
use honeybadger.Write.Effect.{applied_before}
use honeybadger.Write.Batches.{batch_ok}
use honeybadger.ThreeNode.{demo_writes}

abbrev pub demo_batch : List Mutation
demo_batch =
    set_bytes_op (codes "user:2") (codes "grace") []
    ∷ set_bytes_op (codes "user:3") (codes "edsger") []
    ∷ delete_bytes_op (codes "user:1")
    ∷ []

abbrev demo_pair : Bytes → Bytes → Command
demo_pair key value = record {
  pairs = record { key = key; value = value; expires_at_unix = 0 } ∷ [];
  deletes = [];
}

abbrev demo_commands : List Command
demo_commands =
    demo_pair (codes "user:2") (codes "grace")
    ∷ demo_pair (codes "user:3") (codes "edsger")
    ∷ record { pairs = []; deletes = codes "user:1" ∷ [] }
    ∷ []

demo_batch-singles : (now : ℕ → ℕ) → singles now 0 demo_batch ≡ ok demo_commands
unfolding set_command delete_command resolve_set_options resolve_loop
demo_batch-singles now = refl

-- What the batch leaves, over any contents.
demo_commands-after :
    (m : Bytes → Option Stored)
    → (after_log demo_commands m (codes "user:2")
        ≡ some (record { value = codes "grace"; expires_at = 0 }))
      × (after_log demo_commands m (codes "user:3")
          ≡ some (record { value = codes "edsger"; expires_at = 0 }))
      × (after_log demo_commands m (codes "user:1") ≡ none)
unfolding after_log after written last_pair bytes_eq
demo_commands-after m = (refl, refl, refl)

module _ (B : Badger) (L : TxnLaws B) (R : Raft) (RL : RaftLaws R) (G : Gob) (GL : GobLaws G) where
  abbrev pub Holds : Db B R → Type 0
  Holds db =
      (contents B L db.node (codes "user:2")
        ≡ some (record { value = codes "grace"; expires_at = 0 }))
      × (contents B L db.node (codes "user:3")
          ≡ some (record { value = codes "edsger"; expires_at = 0 }))
      × (contents B L db.node (codes "user:1") ≡ none)

  batch-Holds :
      (now : ℕ → ℕ) (db : Db B R)
      → (batch G now demo_batch db).0 ≡ done
      → Holds (batch G now demo_batch db).1
  batch-Holds now db h =
      let (cmd, built, (cs, alone, effect)) = batch_ok B L R RL G GL now _ _ db h in
      let same : cs ≡ demo_commands = ground (arith, demo_batch-singles now) in
      let m = contents B L (apply_log G B (applied_before R G cmd db) db.node) in
      let (two, three, one) = demo_commands-after m in
      let at : (k : Bytes)
          → contents B L (batch G now demo_batch db).1.node k ≡ after_log demo_commands m k =
        λ k. effect k ∙ ap (λ cs'. after_log cs' m k) same in
      (at _ ∙ two, at _ ∙ three, at _ ∙ one)

  -- A run that returns nil has come to its batch.
  demo_writes-batch :
      (now₁ now₂ now₃ : ℕ → ℕ) (leader : Db B R)
      → (demo_writes G now₁ now₂ now₃ leader).0 ≡ done
      → (db : Db B R) × (demo_writes G now₁ now₂ now₃ leader ≡ batch G now₃ demo_batch db)
  unfolding demo_writes
  demo_writes-batch now₁ now₂ now₃ leader h =
      let set_user = set_bytes G now₁ (codes "user:1") (codes "ada") [] leader in
      let set_session =
        set_bytes G now₂ (codes "session:xyz") (codes "token-123")
          (with_ttl (pos 2_000_000_000) ∷ []) set_user.1 in
      elim (Result-cases set_user.0) [
        | inr (e, failed) ↦ absurd (ground arith)
        | inl (_, there) ↦ elim (Result-cases set_session.0) [
          | inr (e, failed) ↦ absurd (ground arith)
          | inl (_, there_too) ↦ (set_session.1, ground arith)
        ]
      ]

  -- Where demoWrites returns nil, the leader's store holds user:2 = "grace" and user:3 = "edsger"
  -- without an expiry, and no user:1, whatever Raft applied between the calls.
  pub demo_writes-Holds :
      (now₁ now₂ now₃ : ℕ → ℕ) (leader : Db B R)
      → (demo_writes G now₁ now₂ now₃ leader).0 ≡ done
      → Holds (demo_writes G now₁ now₂ now₃ leader).1
  demo_writes-Holds now₁ now₂ now₃ leader h =
      let (db, same) = demo_writes-batch now₁ now₂ now₃ leader h in
      rw same (batch-Holds now₃ db (ground arith))
