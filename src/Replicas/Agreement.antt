-- ===== src/Replicas/Agreement.antt =====
-- What the nodes that have been handed the whole log hold.
use honeybadger.Base.{
  nil_of_append-nil, ℕ, Bytes, ◌≡◌, sym, subst, ap, ◌∙◌, false, List, [], ◌++◌, append_cancel_left,
}
use mathlib.Core.List.{append-nil}
use honeybadger.Badger.{Badger, TxnLaws, DiskLaws, Contents}
use honeybadger.Raft.{Raft}
use honeybadger.Command.{LogEntry, Gob}
use honeybadger.Command.Effect.{after_log}
use honeybadger.Fsm.Apply.{contents}
use honeybadger.Persist.{Sink, SinkLaws}
use honeybadger.Open.{Host}
use honeybadger.Replicas.{Cluster, IsNew, effect, decoded, Reach}
use honeybadger.Replicas.Invariant.{Tracks}
use honeybadger.Replicas.Moves.{Reach-IsSound}

-- Contents that are ahead of nothing are the effect of the log.
pub Tracks-whole :
    (G : Gob) (log : List LogEntry) (m : Contents)
    → Tracks G log log m
    → (k : Bytes) → m k ≡ effect G log k
unfolding after_log
Tracks-whole G log m t k =
    let nothing : t.ahead ++ t.rest ≡ [] =
      append_cancel_left log (t.ahead ++ t.rest) [] (sym t.split ∙ sym (append-nil log)) in
    let level : t.ahead ≡ [] = nil_of_append-nil t.ahead t.rest nothing in
    ap (λ ls. after_log (decoded G ls) m k) (sym level)
    ∙ t.catches_up k
    ∙ ap (λ ls. effect G (log ++ ls) k) level
    ∙ ap (λ ls. effect G ls k) (append-nil log)

module _ {B : Badger} {L : TxnLaws B} (D : DiskLaws B L) (G : Gob) {R : Raft} (H : Host B R)
    {K : Sink} (KL : SinkLaws K) where
  -- In every state that a new cluster reaches by commits, applies, snapshots, restores and
  -- restarts, a node that has been handed the whole log, and whose FSM has failed at none of what
  -- it was asked since it started from an empty store or a sound snapshot, holds under every key
  -- what the commands of the log leave there, done one after another to one empty store. So any two
  -- such nodes hold the same.
  pub Reach-effect :
      {s t : Cluster B} (i : ℕ)
      → IsNew L s
      → Reach D G H KL s t
      → (t.replicas i).lost ≡ false
      → t.log ≡ (t.replicas i).passed
      → (k : Bytes) → contents B L (t.replicas i).node k ≡ effect G t.log k
  Reach-effect {t = t} i new path fine whole =
      let tracks = (Reach-IsSound D G H KL new path).tracked i fine in
      let m = contents B L (t.replicas i).node in
      Tracks-whole G t.log m (subst (λ ls. Tracks G t.log ls m) (sym whole) tracks)
