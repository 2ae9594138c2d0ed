-- ===== src/Write/Effect.antt =====
-- What a write that returns nil has done.
use honeybadger.Base.{
  ℕ, Bytes, bytes_eq, is_empty, ◌≡◌, refl, some, List, [], ◌∷◌, arith, inl, inr, Bool-cases,
  if◌then◌else◌,
}
use honeybadger.Errors.{Error, ok, err, done, Result-cases}
use honeybadger.Badger.{Badger, TxnLaws}
use honeybadger.Raft.{Raft, RaftLaws, Outcome, refused, committed}
use honeybadger.Command.{Command, LogEntry, Gob, GobLaws}
use honeybadger.Command.Effect.{last_pair, written, after}
use honeybadger.Node.{check_open}
use honeybadger.Fsm.{encode_command, apply_log}
use honeybadger.Fsm.Apply.{contents, apply_atomic}
use honeybadger.Options.{SetOption, resolve_set_options}
use honeybadger.Batch.{set_command}
use honeybadger.Db.{
  Db, is_leader, not_leader_err, future_error, on_leader, settle, replicate, submit,
}
use honeybadger.Write.{set_bytes}

-- The entries that Raft has the FSM apply while a command is submitted, before the command's own:
-- those that the call of Raft with the encoded command tells of.
abbrev pub entries_before : Outcome → List LogEntry
entries_before (refused ls e) = ls
entries_before (committed ls l) = ls

module _ (R : Raft) (G : Gob) {B : Badger} where
  abbrev pub applied_before : Command → Db B R → List LogEntry
  applied_before cmd db = elim (G.encode cmd) [
    | err e ↦ []
    | ok content ↦
        entries_before (R.apply content db.cfg.advanced.apply_timeout (R.state db.raft).1).0
  ]

-- The command of a Set.
abbrev pub set_of : Bytes → Bytes → ℕ → Command
set_of key value expires_at = record {
  pairs = record { key = key; value = value; expires_at_unix = expires_at } ∷ [];
  deletes = [];
}

module _ (B : Badger) (L : TxnLaws B) (R : Raft) (RL : RaftLaws R) (G : Gob) (GL : GobLaws G) where
  -- A future that failed never comes out as nil.
  future_error-ne-done : (e : Error) (db : Db B R) → ¬ ((future_error e db).0 ≡ done)
  unfolding future_error not_leader_err
  future_error-ne-done e db h = ground arith

  settle_ok :
      (cmd : Command) (content : Bytes) (o : Outcome) (db : Db B R)
      → ((ls : List LogEntry) (l : LogEntry) → o ≡ committed ls l → l.content ≡ content)
      → G.encode cmd ≡ ok content
      → (settle G o db).0 ≡ done
      → (k : Bytes)
      → contents B L (settle G o db).1.node k
        ≡ after cmd (contents B L (apply_log G B (entries_before o) db.node)) k
  unfolding settle
  settle_ok cmd content (refused ls e) db carries encoded h =
      absurd (future_error-ne-done e (record db { node = apply_log G B ls db.node }) h)
  settle_ok cmd content (committed ls l) db carries encoded h =
      elim (apply_atomic B L G l (apply_log G B ls db.node)) [
        | inr (e, failed, _, _) ↦ absurd (ground arith)
        | inl (c, succeeded, decoded, effect, _) ↦
            let same : c ≡ cmd =
              ground (arith, carries ls l refl, GL.decode-encode cmd content encoded) in
            rw (← same) effect
      ]

  replicate_ok :
      (cmd : Command) (content : Bytes) (db : Db B R)
      → G.encode cmd ≡ ok content
      → (replicate G cmd db).0 ≡ done
      → (k : Bytes)
      → contents B L (replicate G cmd db).1.node k
        ≡ after cmd
            (contents B L (
              apply_log G B
                (entries_before (R.apply content db.cfg.advanced.apply_timeout db.raft).0)
                db.node))
            k
  unfolding replicate encode_command
  replicate_ok cmd content db encoded h k =
      let timeout = db.cfg.advanced.apply_timeout in
      let r = (R.apply content timeout db.raft).1 in
      let o = (R.apply content timeout db.raft).0 in
      let effect =
        settle_ok cmd content o (record db { raft = r }) (RL.content-apply content timeout db.raft)
          encoded (ground arith) in
      ground (arith, effect k)

  -- A command whose submission returns nil has taken effect on this node: the node's contents are
  -- those with the command's sets and deletes, over the contents after the entries that Raft tells
  -- of applying before it, in the one call with the encoded command.
  pub submit_ok :
      (cmd : Command) (db : Db B R)
      → (submit G cmd db).0 ≡ done
      → (k : Bytes)
      → contents B L (submit G cmd db).1.node k
        ≡ after cmd (contents B L (apply_log G B (applied_before R G cmd db) db.node)) k
  unfolding submit on_leader check_open not_leader_err replicate encode_command
  submit_ok cmd db h k = elim (Bool-cases db.node.closed) [
    | inl is_closed ↦ absurd (ground arith)
    | inr is_open ↦ elim (Bool-cases (is_leader (R.state db.raft).0)) [
      | inr follows ↦ absurd (ground arith)
      | inl leads ↦ elim (Result-cases (G.encode cmd)) [
        | inr (e, failed) ↦ absurd (ground arith)
        | inl (content, encoded) ↦
            let db' : Db B R = record db { raft = (R.state db.raft).1 } in
            let effect = replicate_ok cmd content db' encoded (ground arith) in
            ground (arith, effect k)
      ]
    ]
  ]

  -- A Set that returns nil is visible on this node: its key holds the value with the expiry that
  -- the options ask for, and every other key holds what it held after the entries that Raft tells
  -- of applying before it, in the one call with the encoded command of that Set alone.
  pub set_bytes_ok :
      (now : ℕ → ℕ) (key value : Bytes) (opts : List SetOption) (db : Db B R)
      → (set_bytes G now key value opts db).0 ≡ done
      → (expires_at : ℕ) × (resolve_set_options (now 0) opts ≡ ok expires_at)
        × ((k : Bytes)
            → contents B L (set_bytes G now key value opts db).1.node k ≡ (
                if bytes_eq key k
                then some (record { value = value; expires_at = expires_at })
                else contents B L
                    (apply_log G B (applied_before R G (set_of key value expires_at) db) db.node)
                    k))
  unfolding set_bytes set_command
  set_bytes_ok now key value opts db h = elim (Bool-cases (is_empty key)) [
    | inl empty ↦ absurd (ground arith)
    | inr full ↦ elim (Result-cases (resolve_set_options (now 0) opts)) [
      | inr (e, failed) ↦ absurd (ground arith)
      | inl (expires_at, resolved) ↦
          let effect = submit_ok (set_of key value expires_at) db (ground arith) in
          (expires_at, resolved, λ k. unfold after written last_pair in ground (arith, effect k))
    ]
  ]
