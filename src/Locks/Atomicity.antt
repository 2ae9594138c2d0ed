-- ===== src/Locks/Atomicity.antt =====
-- The specification of `Locks`: the states that the threads reach, and a history in which each call,
-- restore and close is one step of the node.
use honeybadger.Base.{◌≡◌, true, false, none, some, List, [], ◌∷◌}
use honeybadger.Errors.{Result, err, err_closed}
use honeybadger.Badger.{Badger}
use honeybadger.Node.{Node, run_on}
use honeybadger.Restore.{swap, restore_in_place}
use honeybadger.Close.{close_store}
use honeybadger.Locks.{
  Use, idle, Event, refused, used, swapped, replaced, store_closed, flagged, System, Step,
}

-- An open node over which no thread runs.
abbrev pub start : {B : Badger} {A : Type 0} → Node B → B.World → System B A
start n w = record {
  node = n;
  world = w;
  generation = 0;
  stale_use = false;
  pc = λ _. idle;
  history = [];
}

pub data Reach {B : Badger} {A : Type 0} (s : System B A) : System B A → Type 0 where
  here : Reach s s
  next : {t u : System B A} → Reach s t → Step t u → Reach s u

module _ {B : Badger} {A : Type 0} where
  -- The body of `withStore` behind its check of the flag.
  abbrev pub run_live : Use B A → Node B → Result A × Node B
  run_live fn n = elim n.store [ none ↦ (err err_closed, n) | some d ↦ run_on fn d n ]

  -- The specification: each event is one step of the node. A call of a store user is refused where
  -- the node is closed, or it runs on the live store; a restore and a close are the functions of
  -- Restore and Close.
  abbrev pub Atomic : Event B A → Node B → B.World → Node B → B.World → Type 0
  Atomic (refused fn) n w n' w' = (n.closed ≡ true) × (n' ≡ n) × (w' ≡ w)
  Atomic (used fn r) n w n' w' = (run_live fn n ≡ (r, n')) × (w' ≡ w)
  Atomic (swapped r) n w n' w' = swap B n w ≡ (r, n', w')
  Atomic (replaced snap r) n w n' w' = restore_in_place B snap n w ≡ (r, n', w')
  Atomic (store_closed r) n w n' w' = close_store n w ≡ (r, n', w')
  Atomic flagged n w n' w' = (n' ≡ record n { closed = true }) × (w' ≡ w)

  -- The events of a history, one after another.
  abbrev pub Serial : Node B → B.World → List (Event B A) → Node B → B.World → Type 0
  Serial n₀ w₀ [] n w = (n ≡ n₀) × (w ≡ w₀)
  Serial n₀ w₀ (e ∷ es) n w =
      (m : Node B) × ((v : B.World) × (Serial n₀ w₀ es m v × Atomic e m v n w))
