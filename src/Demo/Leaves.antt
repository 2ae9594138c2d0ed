-- ===== src/Demo/Leaves.antt =====
-- examples/three-node/main.go: what the parts of the demo leave of its nodes.
use honeybadger.Base.{
  ℕ, zero, suc, ◌+◌, pos, ◌≡◌, subst, ◌∙◌, ap, List, [], ◌∷◌, length, Option, none, some, arith,
  inl, inr, Bool, Option-cases,
}
use honeybadger.Errors.{Result, ok, err, done, wrap, Result-cases}
use honeybadger.Badger.{Badger}
use honeybadger.Raft.{Raft}
use honeybadger.Command.{Gob}
use honeybadger.Cluster.{wait_for_leader}
use honeybadger.Status.{status}
use honeybadger.Db.{Db}
use honeybadger.Handles.{HandleLaws, held, IsBalanced}
use honeybadger.Open.{Host, Opening}
use honeybadger.Open.Laws.{HostLaws, all_parts}
use honeybadger.Open.FsmCalls.{run_calls-IsBalanced, raft-run_calls}
use honeybadger.ThreeNode.Boot.{held_by, AllOpen}
use honeybadger.Demo.{
  Times, Sight, demo_timeout, leader_rounds, wait_rounds, reports_voter, Scene, Stage, and_then,
  meanwhile, polled, wait_on, await_voter, await_voters, at_node,
}
use honeybadger.Demo.Waits.{After, After-wait_for}
use honeybadger.Demo.Calls.{CallLaws, IsKept, status-IsKept}

pub After-to :
    {A S : Type 0} (P : S → Type 0) (x y : Option (A × S)) → x ≡ y → After P y → After P x
After-to P x y same after = rw same after

pub After-left :
    {A S : Type 0} (P : S → Type 0) {x : Option (A × S)} {a : A} {s : S}
    → x ≡ some (a, s)
    → After P x
    → P s
After-left P same after = subst (After P) same after

-- A step and what follows it.
pub and_then-After :
    {A C S : Type 0} (P : S → Type 0) (x : Option (Result A × S))
    (next : A → S → Option (Result C × S))
    → After P x
    → ((a : A) (s : S) → P s → After P (next a s))
    → After P (and_then x next)
and_then-After P none next after keeps = tt
and_then-After P (some (err e, s)) next after keeps = after
and_then-After P (some (ok a, s)) next after keeps = keeps a s after

module _ (G : Gob) {B : Badger} {R : Raft} {H : Host B R} (D : HandleLaws B) {P : HostLaws H}
    (C : CallLaws P) where
  -- A node that is open with all its parts; besides its store, `others` databases are open.
  abbrev pub IsUp : ℕ → Scene G H → Type 0
  IsUp others (db, w) =
      (P.parts db.raft ≡ all_parts) × (db.close_result ≡ none) × IsBalanced D others db.node w

  -- The same for several nodes.
  abbrev pub AreUp : ℕ → ℕ → Stage G H → Type 0
  AreUp count others (nodes, w) =
      (length nodes ≡ count) × AllOpen D P nodes × (D.open_dbs w ≡ others + held_by D P nodes)

  pub call-IsUp :
      (others : ℕ) {db db' : Db B R} (w : B.World)
      → IsKept C db db'
      → IsUp others (db, w)
      → IsUp others (db', w)
  call-IsUp others w kept (parts, fresh, count) =
      (kept.parts_eq ∙ parts, kept.close_eq ∙ fresh, omega (arith, kept.held_eq))

  pub meanwhile-IsUp : (others : ℕ) (s : Scene G H) → IsUp others s → IsUp others (meanwhile G H s)
  unfolding meanwhile
  meanwhile-IsUp others (db, w) (parts, fresh, count) =
      let calls = (H.meanwhile db.raft).0 in
      let r = (H.meanwhile db.raft).1 in
      let o : Opening B R = record { node = db.node; raft = r; world = w } in
      (
        ap P.parts (raft-run_calls G D others calls o) ∙ P.parts-meanwhile db.raft ∙ parts,
        fresh,
        run_calls-IsBalanced G D others calls o count,
      )

  pub wait_on-IsUp :
      (others : ℕ) (cond : Db B R → Bool × Db B R) (times : Times) (s : Scene G H)
      → ((db : Db B R) → IsKept C db (cond db).1)
      → IsUp others s
      → After (IsUp others) (wait_on G H cond times s)
  unfolding polled
  wait_on-IsUp others cond times s keeps =
      After-wait_for (polled G H cond) (IsUp others)
        (λ s' up.
          let later = meanwhile G H s' in
          call-IsUp others later.1 (keeps later.0) (meanwhile-IsUp others s' up))
        wait_rounds (pos demo_timeout) times s

  reports_voter-IsKept : (db : Db B R) → IsKept C db (reports_voter db).1
  unfolding reports_voter
  reports_voter-IsKept db = status-IsKept C db

  -- The second loop of formCluster leaves every node up, and the others' databases alone.
  await_voter-IsUp :
      (others : ℕ) (sight : Sight) (s : Scene G H)
      → IsUp others s
      → After (IsUp others) (await_voter G H sight s)
  unfolding await_voter
  await_voter-IsUp others sight (db, w) up =
      let to = After-to (IsUp others) (await_voter G H sight (db, w)) in
      let led = wait_for_leader leader_rounds sight.leader_start (pos demo_timeout) sight.polls in
      let waited = wait_on G H reports_voter sight.times (db, w) in
      let still = wait_on-IsUp others reports_voter sight.times (db, w) reports_voter-IsKept up in
      elim (Option-cases led) [
        | inl waits ↦ to none (ground arith) tt
        | inr (result, ended) ↦ elim (Result-cases result) [
          | inr (e, failed) ↦ to (some (err (wrap "node" e), (db, w))) (ground arith) up
          | inl (m, known) ↦ elim (Option-cases waited) [
            | inl waits ↦ to none (ground arith) tt
            | inr ((answer, (db', w')), stopped) ↦
                let up' : IsUp others (db', w') = After-left (IsUp others) stopped still in
                elim (Result-cases answer) [
                  | inr (e, late) ↦ to (some (err (wrap "node" e), (db', w'))) (ground arith) up'
                  | inl (_, votes) ↦
                      to
                        (some (
                          elim (status db').0 [ err e ↦ err (wrap "node" e) | ok _ ↦ done ],
                          ((status db').1, w'),
                        ))
                        (ground arith) (call-IsUp others w' (status-IsKept C db') up')
                ]
          ]
        ]
      ]

  -- One node of several, as a node by itself.
  alone-IsUp :
      (count others : ℕ) (db : Db B R) (nodes : List (Db B R)) (w : B.World)
      → AreUp count others (db ∷ nodes, w)
      → IsUp (others + held_by D P nodes) (db, w)
  alone-IsUp count others db nodes w (many, (parts, fresh, opens), h) = (parts, fresh, omega arith)

  first-AreUp :
      (count others : ℕ) (db db' : Db B R) (nodes : List (Db B R)) (w w' : B.World)
      → AreUp count others (db ∷ nodes, w)
      → IsUp (others + held_by D P nodes) (db', w')
      → AreUp count others (db' ∷ nodes, w')
  first-AreUp count others db db' nodes w w' (many, (parts, fresh, opens), h) (parts', fresh', h') =
      (many, (parts', fresh', opens), omega arith)

  pub asked-AreUp :
      (count others : ℕ) (db db' : Db B R) (nodes : List (Db B R)) (w : B.World)
      → IsKept C db db'
      → AreUp count others (db ∷ nodes, w)
      → AreUp count others (db' ∷ nodes, w)
  asked-AreUp count others db db' nodes w kept up =
      first-AreUp count others db db' nodes w w up
        (call-IsUp (others + held_by D P nodes) w kept (alone-IsUp count others db nodes w up))

  pub rest-AreUp :
      (count others : ℕ) (db : Db B R) (nodes : List (Db B R)) (w : B.World)
      → AreUp (suc count) others (db ∷ nodes, w)
      → AreUp count (others + held db.node.store) (nodes, w)
  rest-AreUp count others db nodes w (many, (parts, fresh, opens), h) =
      (omega arith, opens, omega arith)

  pub whole-AreUp :
      (count others : ℕ) (db : Db B R) (nodes nodes' : List (Db B R)) (w w' : B.World)
      → AreUp (suc count) others (db ∷ nodes, w)
      → AreUp count (others + held db.node.store) (nodes', w')
      → AreUp (suc count) others (db ∷ nodes', w')
  whole-AreUp count others db nodes nodes' w w' (many, (parts, fresh, opens), h)
        (many', opens', h') =
      (omega arith, (parts, fresh, opens'), omega arith)

  pub await_voters-AreUp :
      (sights : ℕ → Sight) (i count others : ℕ) (nodes : List (Db B R)) (w : B.World)
      → AreUp count others (nodes, w)
      → After (AreUp count others) (await_voters G H sights i nodes w)
  unfolding await_voters
  await_voters-AreUp sights i count others [] w up = up
  await_voters-AreUp sights i zero others (db ∷ nodes) w up = absurd (omega (arith, up.0))
  await_voters-AreUp sights i (suc count) others (db ∷ nodes) w up =
      let to = After-to (AreUp (suc count) others) (await_voters G H sights i (db ∷ nodes) w) in
      let waited = await_voter G H (sights i) (db, w) in
      let still =
        await_voter-IsUp (others + held_by D P nodes) (sights i) (db, w)
          (alone-IsUp (suc count) others db nodes w up) in
      elim (Option-cases waited) [
        | inl waits ↦ to none (ground arith) tt
        | inr ((answer, (db', w')), ended) ↦
            let up' : AreUp (suc count) others (db' ∷ nodes, w') =
              first-AreUp (suc count) others db db' nodes w w' up
                (After-left (IsUp (others + held_by D P nodes)) ended still) in
            elim (Result-cases answer) [
              | inr (e, failed) ↦ to (some (err e, (db' ∷ nodes, w'))) (ground arith) up'
              | inl (_, votes) ↦
                  let more = await_voters G H sights (suc i) nodes w' in
                  let later =
                    await_voters-AreUp sights (suc i) count (others + held db'.node.store) nodes w'
                      (rest-AreUp count others db' nodes w' up') in
                  elim (Option-cases more) [
                    | inl waits ↦ to none (ground arith) tt
                    | inr ((result, (nodes', w'')), found) ↦
                        to (some (result, (db' ∷ nodes', w''))) (ground arith) (
                          whole-AreUp count others db' nodes nodes' w' w'' up'
                            (After-left (AreUp count (others + held db'.node.store)) found later))
                  ]
            ]
      ]

  -- What a step keeps on one node by itself, it keeps on one node of several.
  pub at_node-AreUp :
      {A : Type 0} (i : ℕ) (step : Scene G H → Option (A × Scene G H)) (count others : ℕ)
      (nodes : List (Db B R)) (w : B.World)
      → ((others' : ℕ) (s : Scene G H) → IsUp others' s → After (IsUp others') (step s))
      → AreUp count others (nodes, w)
      → After (AreUp count others) (at_node G H i step nodes w)
  unfolding at_node
  at_node-AreUp i step count others [] w keeps up = tt
  at_node-AreUp zero step count others (db ∷ nodes) w keeps up =
      let still =
        keeps (others + held_by D P nodes) (db, w) (alone-IsUp count others db nodes w up) in
      elim (Option-cases (step (db, w))) [
        | inl waits ↦ After-to (AreUp count others) _ none (ground arith) tt
        | inr ((a, (db', w')), ended) ↦
            After-to (AreUp count others) _ (some (a, (db' ∷ nodes, w'))) (ground arith) (
              first-AreUp count others db db' nodes w w' up
                (After-left (IsUp (others + held_by D P nodes)) ended still))
      ]
  at_node-AreUp (suc i) step zero others (db ∷ nodes) w keeps up = absurd (omega (arith, up.0))
  at_node-AreUp (suc i) step (suc count) others (db ∷ nodes) w keeps up =
      let later =
        at_node-AreUp i step count (others + held db.node.store) nodes w keeps
          (rest-AreUp count others db nodes w up) in
      elim (Option-cases (at_node G H i step nodes w)) [
        | inl waits ↦ After-to (AreUp (suc count) others) _ none (ground arith) tt
        | inr ((a, (nodes', w')), ended) ↦
            After-to (AreUp (suc count) others) _ (some (a, (db ∷ nodes', w'))) (ground arith) (
              whole-AreUp count others db nodes nodes' w w' up
                (After-left (AreUp count (others + held db.node.store)) ended later))
      ]
