-- ===== src/Replicas/Moves.antt =====
-- The steps of the cluster, against what each node and each snapshot should hold of the log.
use honeybadger.Base.{
  ℕ, put, ◌==◌, ◌≡◌, ap, subst, ◌∙◌, false, none, some, List, [], ◌∷◌, ◌++◌, arith, inl, inr,
  Bool-cases,
}
use honeybadger.Errors.{Result-cases}
use honeybadger.Badger.{Badger, TxnLaws, DiskLaws}
use honeybadger.Raft.{Raft}
use honeybadger.Command.{LogEntry, Gob}
use honeybadger.Command.Effect.{after_log}
use honeybadger.Node.{Node}
use honeybadger.Fsm.{apply}
use honeybadger.Fsm.Apply.{contents, applied, contents-apply}
use honeybadger.Restore.{restore}
use honeybadger.Restore.Outcome.{restore_ok}
use honeybadger.Persist.{Sink, SinkLaws}
use honeybadger.Persist.Transfer.{persist_ok}
use honeybadger.Open.{Host}
use honeybadger.Open.Recovery.{contents-Reopened}
use honeybadger.Replicas.{
  Replica, Snapshot, Cluster, IsNew, decoded_entry, misses, deliver_entry, Step, commit, deliver,
  snapshot, install, install_fails, reopen, Reach, here, next,
}
use honeybadger.Replicas.Invariant.{
  Tracks, Tracks-empty, Tracks-commit, Tracks-cong, Tracks-again, Tracks-deliver,
}

module _ {B : Badger} {L : TxnLaws B} (D : DiskLaws B L) (G : Gob) where
  pub record IsSound (s : Cluster B) : Type 0 where
    pub tracked :
        (i : ℕ)
        → (s.replicas i).lost ≡ false
        → Tracks G s.log (s.replicas i).passed (contents B L (s.replicas i).node)
    pub kept :
        (slot : ℕ) (snap : Snapshot)
        → s.snapshots slot ≡ some snap
        → snap.tainted ≡ false
        → Tracks G s.log snap.label (D.snapshot snap.content)

  -- Only one node has changed.
  put-IsSound :
      (s : Cluster B) (i : ℕ) (r : Replica B)
      → IsSound s
      → (r.lost ≡ false → Tracks G s.log r.passed (contents B L r.node))
      → IsSound (record s { replicas = put s.replicas i r })
  put-IsSound s i r sound new = record {
    tracked = λ j. elim (Bool-cases (i == j)) [
      | inl mine ↦ rw mine new
      | inr other ↦ rw other (sound.tracked j)
    ];
    kept = sound.kept;
  }

  -- A command that is not missed is applied.
  applied_of_not_missed :
      (l : LogEntry) (n : Node B) → misses G B l n ≡ false → applied B L G l n ≡ decoded_entry G l
  applied_of_not_missed l n h = elim (Result-cases (G.decode l.content)) [
    | inr (e, failed) ↦ ground arith
    | inl (c, read) ↦ ground arith
  ]

  -- One entry is handed to a node, which is in line with the log unless it loses it.
  pub deliver_entry-Tracks :
      (log : List LogEntry) (r : Replica B) (l : LogEntry) (later : List LogEntry)
      → log ≡ r.passed ++ (l ∷ later)
      → (r.lost ≡ false → Tracks G log r.passed (contents B L r.node))
      → (deliver_entry G B l r).lost ≡ false
      → Tracks G log (r.passed ++ (l ∷ [])) (contents B L (apply G B l r.node).1)
  deliver_entry-Tracks log r l later at tracked fine =
      let there : r.lost ≡ false = ground arith in
      let done_once : misses G B l r.node ≡ false = ground arith in
      Tracks-deliver G log r.passed (contents B L r.node) (contents B L (apply G B l r.node).1) l
        later at
        (λ k.
          contents-apply B L G l r.node k
          ∙ ap (λ cs. after_log cs (contents B L r.node) k)
              (applied_of_not_missed l r.node done_once))
        (tracked there)

  module _ {R : Raft} (H : Host B R) {K : Sink} (KL : SinkLaws K) where
    Step-IsSound : {s t : Cluster B} → Step D G H KL s t → IsSound s → IsSound t
    Step-IsSound {s} (commit l) sound = record {
      tracked = λ i fine.
          Tracks-commit G s.log (s.replicas i).passed (contents B L (s.replicas i).node) l
            (sound.tracked i fine);
      kept = λ slot snap at fine.
          Tracks-commit G s.log snap.label (D.snapshot snap.content) l
            (sound.kept slot snap at fine);
    }
    Step-IsSound {s} (deliver i l later at) sound =
        put-IsSound s i (deliver_entry G B l (s.replicas i)) sound
          (deliver_entry-Tracks s.log (s.replicas i) l later at (sound.tracked i))
    Step-IsSound {s} (snapshot i slot label later sink content split fresh persisted published)
          sound =
        let n = (s.replicas i).node in
        let taken : Snapshot = record {
          label = label;
          content = content;
          tainted = (s.replicas i).lost;
        } in
        let (content', published', held) = persist_ok K KL B L D n sink fresh persisted in
        let same : content' ≡ content = ground arith in
        record {
          tracked = sound.tracked;
          kept = λ at snap is_there fine. elim (Bool-cases (slot == at)) [
            | inr other ↦ sound.kept at snap (ground arith) fine
            | inl mine ↦
                let this : taken ≡ snap = ground arith in
                let sane : taken.tainted ≡ false = ap (λ x. x.tainted) this ∙ fine in
                subst (λ (x : Snapshot). Tracks G s.log x.label (D.snapshot x.content)) this
                  (Tracks-cong G s.log label (contents B L n) (D.snapshot content)
                    (λ k. ground (arith, held k))
                    (Tracks-again G s.log label later (contents B L n)
                      (rw (← split) (sound.tracked i sane))))
          ];
        }
    Step-IsSound {s} (install i slot snap there placed restored) sound =
        let n = (s.replicas i).node in
        let w = (s.replicas i).world in
        let (d, live, reset, home, holds) = restore_ok B L D snap.content n w placed restored in
        put-IsSound s i _ sound (λ fine.
          Tracks-cong G s.log snap.label (D.snapshot snap.content)
            (contents B L (restore B snap.content n w).1) (λ k. ground (arith, holds k))
            (sound.kept slot snap there fine))
    Step-IsSound {s} (install_fails i slot snap e there failed) sound =
        put-IsSound s i _ sound (λ fine. absurd (ground arith))
    Step-IsSound {s} (reopen i cfg w w' db label later split disk again) sound =
        let r = s.replicas i in
        put-IsSound s i _ sound (λ fine.
          Tracks-cong G s.log label (contents B L r.node) (contents B L db.node)
            (λ k. contents-Reopened B L D G H none cfg w db tt again k ∙ disk fine k)
            (Tracks-again G s.log label later (contents B L r.node)
              (rw (← split) (sound.tracked i fine))))

    new-IsSound : {s : Cluster B} → IsNew L s → IsSound s
    new-IsSound {s} new = record {
      tracked = λ i fine.
          rw (new.log_eq, new.passed_eq i)
            (Tracks-empty G (contents B L (s.replicas i).node) (new.empty i));
      kept = λ slot snap at fine. absurd (ground (arith, new.no_snapshot slot));
    }

    pub Reach-IsSound : {s t : Cluster B} → IsNew L s → Reach D G H KL s t → IsSound t
    Reach-IsSound new here = new-IsSound new
    Reach-IsSound new (next path step) = Step-IsSound step (Reach-IsSound new path)
