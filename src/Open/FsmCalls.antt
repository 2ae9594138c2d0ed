-- ===== src/Open/FsmCalls.antt =====
-- fsm.go: what the calls that Raft makes of the FSM by itself do and leave open.
use honeybadger.Base.{ℕ, ◌≡◌, refl, List, [], ◌∷◌, ◌++◌, map, arith, inl, inr, Option-cases}
use honeybadger.Badger.{Badger}
use honeybadger.Raft.{Raft}
use honeybadger.Command.{LogEntry, Gob}
use honeybadger.Node.{Node, with_store}
use honeybadger.Fsm.{apply, apply_log, finish}
use honeybadger.Restore.{restore}
use honeybadger.Handles.{HandleLaws, held, IsBalanced}
use honeybadger.Handles.Kept.{restore-IsBalanced}
use honeybadger.Open.{FsmCall, apply_call, restore_call, Opening, run_calls}

pub held-apply :
    (G : Gob) (B : Badger) (l : LogEntry) (n : Node B) → held (apply G B l n).1.store ≡ held n.store
unfolding apply with_store finish
held-apply G B l n = elim (Option-cases n.store) [
  | inl gone ↦ ground arith
  | inr (d, live) ↦ ground arith
]

module _ (G : Gob) {B : Badger} {R : Raft} where
  -- The calls do not touch Raft.
  pub run_calls_raft :
      (calls : List FsmCall) (o : Opening B R) (r : R.State)
      → run_calls G calls (record o { raft = r }) ≡ record (run_calls G calls o) { raft = r }
  unfolding run_calls
  run_calls_raft [] o r = refl
  run_calls_raft (apply_call l ∷ calls) o r = run_calls_raft calls _ r
  run_calls_raft (restore_call snap ∷ calls) o r = run_calls_raft calls _ r

  pub run_calls_append :
      (calls more : List FsmCall) (o : Opening B R)
      → run_calls G (calls ++ more) o ≡ run_calls G more (run_calls G calls o)
  unfolding run_calls
  run_calls_append [] more o = refl
  run_calls_append (apply_call l ∷ calls) more o = run_calls_append calls more _
  run_calls_append (restore_call snap ∷ calls) more o = run_calls_append calls more _

  pub node-run_calls :
      (ls : List LogEntry) (o : Opening B R)
      → (run_calls G (map apply_call ls) o).node ≡ apply_log G B ls o.node
  unfolding run_calls apply_log
  node-run_calls [] o = refl
  node-run_calls (l ∷ ls) o = node-run_calls ls (record o { node = (apply G B l o.node).1 })

module _ (G : Gob) {B : Badger} {R : Raft} (D : HandleLaws B) (others : ℕ) where
  pub run_calls-IsBalanced :
      (calls : List FsmCall) (o : Opening B R)
      → IsBalanced D others o.node o.world
      → IsBalanced D others (run_calls G calls o).node (run_calls G calls o).world
  unfolding run_calls
  run_calls-IsBalanced [] o h = h
  run_calls-IsBalanced (apply_call l ∷ calls) o h =
      run_calls-IsBalanced calls (record o { node = (apply G B l o.node).1 })
        (omega (arith, held-apply G B l o.node))
  run_calls-IsBalanced (restore_call snap ∷ calls) o h =
      run_calls-IsBalanced calls
        (record o {
          node = (restore B snap o.node o.world).1;
          world = (restore B snap o.node o.world).2;
        })
        (restore-IsBalanced B D others snap o.node o.world h)

  pub raft-run_calls :
      (calls : List FsmCall) (o : Opening B R) → (run_calls G calls o).raft ≡ o.raft
  unfolding run_calls
  raft-run_calls [] o = refl
  raft-run_calls (apply_call l ∷ calls) o = raft-run_calls calls _
  raft-run_calls (restore_call snap ∷ calls) o = raft-run_calls calls _
