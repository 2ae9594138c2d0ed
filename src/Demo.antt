-- ===== src/Demo.antt =====
-- examples/three-node/main.go: the demo from the joins of the nodes on, and the whole run.
--
-- `ids[i]` and `addrs[i]` are what the configuration of the node has. Before each round of a wait,
-- and while the demo sleeps, Raft may have called the FSM of the node: `meanwhile`. A result of
-- `none` means that a wait has run out of its rounds. What the demo prints from a read is part of
-- its result; other messages are left out.
pub mod Script
pub mod Log
pub mod Reads
pub mod Shown
pub mod RunReturns
pub mod Returns
pub mod Shutdown
pub mod FollowerSteps
pub mod Steps
pub mod Leaves
pub mod Calls
pub mod Waits
use honeybadger.Base.{
  ℕ, zero, suc, ℤ, pos, Bytes, codes, ◌++◌, bytes_eq, List, [], ◌∷◌, Option, none, some, Bool, true,
  false, not, ◌&&◌, if◌then◌else◌,
}
use mathlib.Core.List.{reverse}
use honeybadger.Errors.{Error, Result, ok, err, done, is_ok, wrap, plain, errors_is, key_not_found}
use honeybadger.Badger.{Badger}
use honeybadger.Raft.{Raft}
use honeybadger.Command.{Gob}
use honeybadger.Options.{ReadOptions, read_local, ScanOptions, add_duration}
use honeybadger.Cluster.{
  Poll, before, NodeRole, role_none, role_voter, Member, add_voter, wait_for_leader,
}
use honeybadger.Status.{State, state_leader, Status, status}
use honeybadger.Db.{Db}
use honeybadger.Read.{ScanEntry, get_bytes, scan_prefix_bytes}
use honeybadger.Open.{Host, Opening, run_calls}
use honeybadger.ThreeNode.{
  Net, Site, Fleet, Ending, returned, panicked, cleanup, boot_nodes, demo_writes,
}

abbrev pub wait_for_interval : ℕ
wait_for_interval = 25_000_000

-- The clock as a wait reads it: at its start, and once in each round.
pub record Times : Type 0 where
  pub start : ℕ
  pub now : ℕ → ℕ

-- What follows a call that may return an error, or not at all: `if err != nil { return err }`.
abbrev pub and_then :
    {A C S : Type 0}
    → Option (Result A × S)
    → (A → S → Option (Result C × S))
    → Option (Result C × S)
and_then none next = none
and_then (some (err e, s)) next = some (err e, s)
and_then (some (ok a, s)) next = next a s

module _ {S : Type 0} where
  -- The loop of `waitFor` from the round `i` on, over a condition that may change what it looks at;
  -- `none` means that the fuel ran out.
  unfoldable pub wait_for_loop :
      ℕ → ℤ → (S → Bool × S) → (ℕ → ℕ) → ℕ → S → Option (Result (Unit {0}) × S)
  wait_for_loop zero deadline cond now i s = none
  wait_for_loop (suc fuel) deadline cond now i s =
      let (holds, s') = cond s in
      let rest = wait_for_loop fuel deadline cond now (suc i) s' in
      if holds
      then some (done, s')
      else if not (before (now i) deadline)
      then some (err (plain "timed out"), s')
      else rest

  -- `waitFor`
  unfoldable pub wait_for : ℕ → ℤ → (S → Bool × S) → Times → S → Option (Result (Unit {0}) × S)
  wait_for fuel timeout cond times =
      wait_for_loop fuel (add_duration times.start timeout) cond times.now 0

-- Ten seconds, and the rounds that fill them, with one more.
abbrev pub demo_timeout : ℕ
demo_timeout = 10_000_000_000

abbrev pub wait_rounds : ℕ
wait_rounds = 401

abbrev pub leader_rounds : ℕ
leader_rounds = 501

-- What the waits of `formCluster` on one node observe.
pub record Sight : Type 0 where
  pub leader_start : ℕ
  pub polls : ℕ → Poll
  pub times : Times

abbrev pub local_reads : ReadOptions
local_reads = record { mode = read_local; timeout = pos 0 }

abbrev pub is_voter : NodeRole → Bool
is_voter role_voter = true
is_voter _ = false

abbrev pub is_state_leader : State → Bool
is_state_leader state_leader = true
is_state_leader _ = false

module _ {B : Badger} {R : Raft} where
  -- The loop of `formCluster` that joins the other nodes, on the leader.
  unfoldable pub join_voters : List (Db B R) → Db B R → Result (Unit {0}) × Db B R
  join_voters [] leader = (done, leader)
  join_voters (db ∷ others) leader =
      let (added, leader') =
        add_voter (record { id = db.cfg.node_id; raft_addr = db.cfg.raft_bind; role = role_none })
          leader in
      elim added [ err e ↦ (err (wrap "add voter" e), leader') | ok _ ↦ join_voters others leader' ]

  -- The condition of `formCluster`.
  unfoldable pub reports_voter : Db B R → Bool × Db B R
  reports_voter db =
      let (st, db') = status db in (elim st [ err _ ↦ false | ok s ↦ is_voter s.local.role ], db')

  -- The end of `formCluster`.
  unfoldable pub present_leader : Db B R → Result (Unit {0}) × Db B R
  present_leader leader =
      let (st, leader') = status leader in
      (
        elim st [
          | err e ↦ err e
          | ok s ↦ elim s.leader [ none ↦ err (plain "no cluster leader yet") | some m ↦ done ]
        ],
        leader',
      )

  -- `firstFollower`, from the index `i` on; nodes past the one that it finds are not asked.
  unfoldable pub first_follower : ℕ → List (Db B R) → ℕ × List (Db B R)
  first_follower i [] = (1, [])
  first_follower i (db ∷ nodes) =
      let (st, db') = status db in
      let (j, nodes') = first_follower (suc i) nodes in
      if elim st [ err _ ↦ false | ok s ↦ not (is_state_leader s.state) ]
      then (i, db' ∷ nodes)
      else (j, db' ∷ nodes')

module _ (G : Gob) {B : Badger} {R : Raft} where
  -- The conditions of `demoReads` and `demoTTL`.
  unfoldable pub sees_value : Bytes → Bytes → Db B R → Bool × Db B R
  sees_value key value db =
      let (got, db') = get_bytes G key local_reads db in
      (elim got [ err _ ↦ false | ok v ↦ bytes_eq v value ], db')

  unfoldable pub misses_key : Bytes → Db B R → Bool × Db B R
  misses_key key db =
      let (got, db') = get_bytes G key local_reads db in
      (elim got [ err e ↦ errors_is e key_not_found | ok _ ↦ false ], db')

  unfoldable pub sees_key : Bytes → Db B R → Bool × Db B R
  sees_key key db = let (got, db') = get_bytes G key local_reads db in (is_ok got, db')

  module _ (H : Host B R) where
    -- A node, with the disk that all nodes share.
    abbrev pub Scene : Type 0
    Scene = Db B R × B.World

    -- What Raft does at a node while the demo does not call it.
    unfoldable pub meanwhile : Scene → Scene
    meanwhile (db, w) =
        let (calls, r) = H.meanwhile db.raft in
        let o = run_calls G {R = R} calls (record { node = db.node; raft = r; world = w }) in
        (record db { node = o.node; raft = o.raft }, o.world)

    -- One round of a wait on a node.
    unfoldable pub polled : (Db B R → Bool × Db B R) → Scene → Bool × Scene
    polled cond s = let (db, w) = meanwhile s in let (holds, db') = cond db in (holds, (db', w))

    abbrev pub wait_on :
        (Db B R → Bool × Db B R) → Times → Scene → Option (Result (Unit {0}) × Scene)
    wait_on cond = wait_for wait_rounds (pos demo_timeout) (polled cond)

    -- The second loop of `formCluster`, at one node.
    unfoldable pub await_voter : Sight → Scene → Option (Result (Unit {0}) × Scene)
    await_voter sight (db, w) =
        elim (wait_for_leader leader_rounds sight.leader_start (pos demo_timeout) sight.polls) [
          | none ↦ none
          | some (err e) ↦ some (err (wrap "node" e), (db, w))
          | some (ok _) ↦ elim (wait_on reports_voter sight.times (db, w)) [
            | none ↦ none
            | some (err e, s) ↦ some (err (wrap "node" e), s)
            | some (ok _, (db', w')) ↦
                let (st, db'') = status db' in
                some (elim st [ err e ↦ err (wrap "node" e) | ok _ ↦ done ], (db'', w'))
          ]
        ]

    -- The nodes, the leader first, with the disk.
    abbrev pub Stage : Type 0
    Stage = List (Db B R) × B.World

    -- The second loop of `formCluster`, from the node `i` on.
    unfoldable pub await_voters :
        (ℕ → Sight) → ℕ → List (Db B R) → B.World → Option (Result (Unit {0}) × Stage)
    await_voters sights i [] w = some (done, ([], w))
    await_voters sights i (db ∷ nodes) w = elim (await_voter (sights i) (db, w)) [
      | none ↦ none
      | some (err e, (db', w')) ↦ some (err e, (db' ∷ nodes, w'))
      | some (ok _, (db', w')) ↦ elim (await_voters sights (suc i) nodes w') [
        | none ↦ none
        | some (result, (nodes', w'')) ↦ some (result, (db' ∷ nodes', w''))
      ]
    ]

    -- A step of the demo on the node with an index; `none` also where there is no such node.
    unfoldable pub at_node :
        {A : Type 0}
        → ℕ
        → (Scene → Option (A × Scene))
        → List (Db B R)
        → B.World
        → Option (A × Stage)
    at_node i step [] w = none
    at_node zero step (db ∷ nodes) w = elim (step (db, w)) [
      | none ↦ none
      | some (a, (db', w')) ↦ some (a, (db' ∷ nodes, w'))
    ]
    at_node (suc i) step (db ∷ nodes) w = elim (at_node i step nodes w) [
      | none ↦ none
      | some (a, (nodes', w')) ↦ some (a, (db ∷ nodes', w'))
    ]
