-- ===== src/Fsm/Replay.antt =====
-- Snapshots may hold the effects of entries that are replayed after the restore. Replay converges,
-- and the applied index follows the entries that succeed.
use honeybadger.Base.{ℕ, ◌≤◌, ◌<◌, Bytes, ◌≡◌, refl, sym, ◌∙◌, List, [], ◌∷◌, ◌++◌, arith}
use mathlib.Core.List.{append_assoc}
use honeybadger.Command.{LogEntry, Gob}
use honeybadger.Command.Effect.{after_log-overlap}
use honeybadger.Badger.{Badger, TxnLaws}
use honeybadger.Node.{Node}
use honeybadger.Fsm.{apply, apply_log}
use honeybadger.Fsm.Apply.{contents, applied, applied_log, contents-apply_log, applied_index-apply}

module _ (B : Badger) (L : TxnLaws B) (G : Gob) where
  applied_log-append :
      (ls ls' : List LogEntry) (n : Node B)
      → applied_log B L G (ls ++ ls') n
        ≡ applied_log B L G ls n ++ applied_log B L G ls' (apply_log G B ls n)
  unfolding applied_log apply_log
  applied_log-append [] ls' n = refl
  applied_log-append (l ∷ ls) ls' n =
      rw (applied_log-append ls ls' (apply G B l n).1) (sym (append_assoc (applied B L G l n) _ _))

  pub apply_log_append :
      (ls ls' : List LogEntry) (n : Node B)
      → apply_log G B (ls ++ ls') n ≡ apply_log G B ls' (apply_log G B ls n)
  unfolding apply_log
  apply_log_append [] ls' n = refl
  apply_log_append (l ∷ ls) ls' n = apply_log_append ls ls' (apply G B l n).1

  -- Snapshot convergence. A node that starts from contents which already hold the effects of
  -- the entries `overlap`, and replays `overlap` and then `rest`, holds what a node holds that
  -- applied each entry once, if the same entries succeed on both.
  pub replay_converges :
      (overlap rest : List LogEntry) (n m : Node B)
      → ((k : Bytes) → contents B L m k ≡ contents B L (apply_log G B overlap n) k)
      → applied_log B L G (overlap ++ rest) m ≡ applied_log B L G (overlap ++ rest) n
      → (k : Bytes)
      → contents B L (apply_log G B (overlap ++ rest) m) k
        ≡ contents B L (apply_log G B (overlap ++ rest) n) k
  replay_converges overlap rest n m held same k =
      let done_once = applied_log B L G overlap n in
      let done_after = applied_log B L G rest (apply_log G B overlap n) in
      rw
        (
          contents-apply_log B L G (overlap ++ rest) m k,
          contents-apply_log B L G (overlap ++ rest) n k,
          same,
          applied_log-append overlap rest n,
        )
        (after_log-overlap done_once done_after (contents B L n) (contents B L m)
          (λ j. held j ∙ contents-apply_log B L G overlap n j) k)

-- Raft hands the FSM entries in the order of their indices, above `i`.
abbrev pub IsIncreasing : ℕ → List LogEntry → Type 0
IsIncreasing i [] = Unit
IsIncreasing i (l ∷ ls) = (i < l.index) × IsIncreasing l.index ls

abbrev pub last_index : ℕ → List LogEntry → ℕ
last_index i [] = i
last_index i (l ∷ ls) = last_index l.index ls

last_index-le : (i : ℕ) (ls : List LogEntry) → IsIncreasing i ls → i ≤ last_index i ls
last_index-le i [] h = omega arith
last_index-le i (l ∷ ls) h = omega (arith, last_index-le l.index ls h.1)

module _ (B : Badger) (L : TxnLaws B) (G : Gob) where
  -- Under entries in log order the applied index never moves back, and never passes the last
  -- entry.
  pub applied_index-apply_log :
      (ls : List LogEntry) (n : Node B) (i : ℕ)
      → n.applied_index ≤ i
      → IsIncreasing i ls
      → (n.applied_index ≤ (apply_log G B ls n).applied_index)
        × ((apply_log G B ls n).applied_index ≤ last_index i ls)
  unfolding apply_log
  applied_index-apply_log [] n i below inc = omega arith
  applied_index-apply_log (l ∷ ls) n i below inc =
      ground
        (arith, applied_index-apply B L G l n, applied_index-apply_log ls (apply G B l n).1 l.index)
