-- ===== src/Persist/Transfer.antt =====
-- A snapshot from its Persist on one node through a Restore on another to the replay of the log.
use honeybadger.Base.{Bytes, ◌≡◌, ◌∙◌, ap, some, List, [], ◌∷◌, ◌++◌, arith, inl, inr, Option-cases}
use mathlib.Core.List.{append-nil, append_assoc}
use honeybadger.Errors.{Error, ok, done, err_closed, wrap, Result-cases}
use honeybadger.Badger.{Badger, TxnLaws, DiskLaws, write_all, concat}
use honeybadger.Command.{LogEntry, Gob}
use honeybadger.Node.{Node}
use honeybadger.Fsm.{apply_log}
use honeybadger.Fsm.Apply.{contents, applied_log}
use honeybadger.Fsm.Replay.{replay_converges}
use honeybadger.Restore.{restore}
use honeybadger.Restore.Swap.{IsPlaced}
use honeybadger.Restore.Outcome.{restore_ok}
use honeybadger.Persist.{Sink, SinkLaws, cancel_with, persist_store, persist}

module _ (K : Sink) (KL : SinkLaws K) where
  -- Pieces that are all taken are written one after another.
  written-write_all :
      (chunks : List Bytes) (s s' : K.State)
      → write_all K.write chunks s ≡ (ok tt, s')
      → KL.written s' ≡ KL.written s ++ concat chunks
  written-write_all [] s s' h = ground (arith, append-nil (KL.written s))
  written-write_all (chunk ∷ chunks) s s' h = elim (Result-cases (K.write chunk s).0) [
    | inr (e, failed) ↦ absurd (ground arith)
    | inl (_, taken) ↦
        written-write_all chunks (K.write chunk s).1 s' (ground arith)
        ∙ ap (λ bs. bs ++ concat chunks) (KL.written-write chunk s taken)
        ∙ append_assoc (KL.written s) chunk (concat chunks)
  ]

  cancel_with-ne-done : (e : Error) (s : K.State) → ¬ ((cancel_with K e s).0 ≡ done)
  unfolding cancel_with
  cancel_with-ne-done e s h = ground arith

  module _ (B : Badger) (L : TxnLaws B) (D : DiskLaws B L) where
    -- A Persist that returns nil publishes a snapshot that holds exactly what the node's store
    -- held, if nothing was written to the sink before.
    pub persist_ok :
        (n : Node B) (s : K.State)
        → KL.written s ≡ []
        → (persist K B n s).0 ≡ done
        → (snap : Bytes) × (KL.published (persist K B n s).1 ≡ some snap)
          × ((k : Bytes) → D.snapshot snap k ≡ contents B L n k)
    unfolding persist persist_store
    persist_ok n s fresh h = elim (Option-cases n.store) [
      | inl gone ↦ absurd (cancel_with-ne-done err_closed s (ground arith))
      | inr (d, live) ↦ elim (Result-cases (B.backup K.write d s).0) [
        | inr (e, failed) ↦ absurd (
            cancel_with-ne-done (wrap "honeybadger: backup badger into snapshot" e)
              (B.backup K.write d s).1 (ground arith))
        | inl (_, backed_up) ↦
            let s' = (B.backup K.write d s).1 in
            let (chunks, taken, held) = D.backup_holds K.write d s s' (ground arith) in
            (
              concat chunks,
              ground (arith, KL.published-close s', written-write_all chunks s s' taken),
              λ k. ground (arith, held k),
            )
      ]
    ]

    -- A snapshot that a Persist without an error wrote to a fresh sink, and that another node
    -- restored without an error, gives that node the contents of the first, and resets its
    -- applied index, if its directories lie as `IsPlaced` says.
    pub restore-persist :
        (n : Node B) (s : K.State) (snap : Bytes) (m : Node B) (w : B.World)
        → KL.written s ≡ []
        → (persist K B n s).0 ≡ done
        → KL.published (persist K B n s).1 ≡ some snap
        → IsPlaced D m
        → (restore B snap m w).0 ≡ ok tt
        → ((k : Bytes) → contents B L (restore B snap m w).1 k ≡ contents B L n k)
          × ((restore B snap m w).1.applied_index ≡ 0)
    restore-persist n s snap m w fresh persisted published placed restored =
        let (snap', published', held) = persist_ok n s fresh persisted in
        let (d, live, index, home, stored) = restore_ok B L D snap m w placed restored in
        let same : snap' ≡ snap = ground arith in (λ k. ground (arith, stored k, held k), index)

    -- Snapshots that lag converge. Raft labels a snapshot with the state of `n`; Persist runs when
    -- `n` has also applied the entries `overlap`, without an error and to a fresh sink. A node that
    -- restores the snapshot without an error and replays `overlap` and `rest` holds what `n` holds
    -- after the same entries, if its directories lie as `IsPlaced` says and the same entries
    -- succeed on both.
    pub snapshot_converges :
        (G : Gob) (overlap rest : List LogEntry) (n : Node B) (s : K.State) (snap : Bytes)
        (m : Node B) (w : B.World)
        → KL.written s ≡ []
        → (persist K B (apply_log G B overlap n) s).0 ≡ done
        → KL.published (persist K B (apply_log G B overlap n) s).1 ≡ some snap
        → IsPlaced D m
        → (restore B snap m w).0 ≡ ok tt
        → applied_log B L G (overlap ++ rest) (restore B snap m w).1
          ≡ applied_log B L G (overlap ++ rest) n
        → (k : Bytes)
        → contents B L (apply_log G B (overlap ++ rest) (restore B snap m w).1) k
          ≡ contents B L (apply_log G B (overlap ++ rest) n) k
    snapshot_converges G overlap rest n s snap m w fresh persisted published placed restored same =
        let ahead = apply_log G B overlap n in
        let moved = restore-persist ahead s snap m w fresh persisted published placed restored in
        replay_converges B L G overlap rest n (restore B snap m w).1 moved.0 same
