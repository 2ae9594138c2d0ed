-- ===== src/Demo/Returns.antt =====
-- examples/three-node/main.go: the rounds of the waits of the demo between boot and shutdown.
use honeybadger.Base.{
  ℕ, zero, suc, ◌+◌, ◌*◌, ◌≤◌, ◌<◌, ◌≡◌, ◌⊎◌, refl, subst, ◌∙◌, ap, codes, Bytes, List, [], ◌∷◌,
  length, Bool, false, not, Option, none, some, arith, inl, inr, Option-cases, Bool-cases,
}
use honeybadger.Errors.{Result, ok, err, done, wrap, Result-cases}
use honeybadger.Badger.{Badger}
use honeybadger.Raft.{Raft}
use honeybadger.Command.{Gob}
use honeybadger.Cluster.{leader_poll_interval}
use honeybadger.Cluster.Wait.{wait_for_leader_lem}
use honeybadger.Status.{status}
use honeybadger.Db.{Db}
use honeybadger.Open.{Host}
use honeybadger.Demo.{
  Times, wait_for_interval, demo_timeout, and_then, sees_value, misses_key, sees_key, reports_voter,
  is_state_leader, first_follower, Scene, Stage, polled, wait_on, await_voter, await_voters,
  at_node,
}
use honeybadger.Demo.Script.{
  View, on_first, form_cluster, read_later, scan_later, demo_reads, demo_ttl, demo_follower, demo,
}
use honeybadger.Demo.Waits.{wait_for-Stops}

-- A step that returns, and what it leaves then.
abbrev pub Ends : {A S : Type 0} → (S → Type 0) → Option (A × S) → Type 0
Ends P none = ⊥
Ends P (some (a, s)) = P s

Ends-to : {A S : Type 0} (P : S → Type 0) (x y : Option (A × S)) → x ≡ y → Ends P y → Ends P x
Ends-to P x y same ends = rw same ends

Ends-left :
    {A S : Type 0} (P : S → Type 0) {x : Option (A × S)} {a : A} {s : S}
    → x ≡ some (a, s)
    → Ends P x
    → P s
Ends-left P same ends = subst (Ends P) same ends

and_then-Ends :
    {A C S : Type 0} (P : S → Type 0) (x : Option (Result A × S))
    (next : A → S → Option (Result C × S))
    → Ends P x
    → ((a : A) (s : S) → P s → Ends P (next a s))
    → Ends P (and_then x next)
and_then-Ends P none next ends later = ends
and_then-Ends P (some (err e, s)) next ends later = ends
and_then-Ends P (some (ok a, s)) next ends later = later a s ends

-- The clock moves on by at least the poll interval between two rounds of a wait.
abbrev pub IsTicking : Times → Type 0
IsTicking times = (i : ℕ) → times.start + i * wait_for_interval ≤ times.now i

pub record IsTimed (view : View) : Type 0 where
  pub leader_polls :
      (n i : ℕ)
      → (view.sights n).leader_start + i * leader_poll_interval ≤ ((view.sights n).polls i).now
  pub votes : (n : ℕ) → IsTicking (view.sights n).times
  pub replicates : IsTicking view.replicates
  pub deletes : IsTicking view.deletes
  pub session : IsTicking view.session

-- Any state will do.
abbrev Anything : {S : Type 0} → S → Type 0
Anything s = Unit

module _ (G : Gob) {B : Badger} {R : Raft} (H : Host B R) where
  wait_on-Ends :
      (cond : Db B R → Bool × Db B R) (times : Times) (s : Scene G H)
      → IsTicking times
      → Ends Anything (wait_on G H cond times s)
  wait_on-Ends cond times s ticking =
      let (r, n, ended, stops) =
        wait_for-Stops (polled G H cond) 400 demo_timeout times s ticking (omega arith) in
      Ends-to Anything _ (some (r, _)) ended tt

  first_follower-length :
      (i : ℕ) (nodes : List (Db B R)) → length (first_follower i nodes).1 ≡ length nodes
  unfolding first_follower
  first_follower-length i [] = refl
  first_follower-length i (db ∷ nodes) =
      elim (Bool-cases
        (elim (status db).0 [ err _ ↦ false | ok s ↦ not (is_state_leader s.state) ])) [
          | inl follows ↦ rw follows refl
          | inr leads ↦ rw leads (ap suc (first_follower-length (suc i) nodes))
        ]

  -- The node that firstFollower picks is there.
  first_follower-bound :
      (i : ℕ) (nodes : List (Db B R))
      → ((first_follower i nodes).0 < i + length nodes) ⊎ ((first_follower i nodes).0 ≡ 1)
  unfolding first_follower
  first_follower-bound i [] = inr refl
  first_follower-bound i (db ∷ nodes) =
      elim (Bool-cases
        (elim (status db).0 [ err _ ↦ false | ok s ↦ not (is_state_leader s.state) ])) [
          | inl follows ↦ rw follows (inl (omega arith))
          | inr leads ↦ rw leads (elim (first_follower-bound (suc i) nodes) [
            | inl bound ↦ inl (omega arith)
            | inr second ↦ inr second
          ])
        ]

  -- Several nodes, of which none comes or goes.
  abbrev pub HasCount : ℕ → Stage G H → Type 0
  HasCount count (nodes, w) = length nodes ≡ count

  at_node-Ends :
      {A : Type 0} (i : ℕ) (step : Scene G H → Option (A × Scene G H)) (count : ℕ)
      (nodes : List (Db B R)) (w : B.World)
      → ((s : Scene G H) → Ends Anything (step s))
      → i < count
      → length nodes ≡ count
      → Ends (HasCount count) (at_node G H i step nodes w)
  unfolding at_node
  at_node-Ends i step count [] w ends low many = absurd (omega arith)
  at_node-Ends zero step count (db ∷ nodes) w ends low many = elim (Option-cases (step (db, w))) [
    | inl waits ↦ absurd (subst (Ends Anything) waits (ends (db, w)))
    | inr ((a, (db', w')), ended) ↦
        Ends-to (HasCount count) _ (some (a, (db' ∷ nodes, w'))) (ground arith) many
  ]
  at_node-Ends (suc i) step zero (db ∷ nodes) w ends low many = absurd (omega arith)
  at_node-Ends (suc i) step (suc count) (db ∷ nodes) w ends low many =
      let rest = at_node-Ends i step count nodes w ends (omega arith) (omega arith) in
      elim (Option-cases (at_node G H i step nodes w)) [
        | inl waits ↦ absurd (subst (Ends (HasCount count)) waits rest)
        | inr ((a, (nodes', w')), ended) ↦
            Ends-to (HasCount (suc count)) _ (some (a, (db ∷ nodes', w'))) (ground arith)
              (ap suc (Ends-left (HasCount count) ended rest))
      ]

  on_first-Ends :
      {A : Type 0} (call : Db B R → Result A × Db B R) (s : Stage G H)
      → HasCount 3 s
      → Ends (HasCount 3) (on_first G H call s)
  on_first-Ends call s many = at_node-Ends 0 _ 3 s.0 s.1 (λ s'. tt) (omega arith) many

  module _ (view : View) (timed : IsTimed view) where
    await_voter-Ends : (n : ℕ) (s : Scene G H) → Ends Anything (await_voter G H (view.sights n) s)
    unfolding await_voter
    await_voter-Ends n (db, w) =
        let sight = view.sights n in
        let to = Ends-to Anything (await_voter G H sight (db, w)) in
        let (result, led, rest) =
          wait_for_leader_lem 500 sight.leader_start demo_timeout sight.polls (timed.leader_polls n)
            (omega arith) in
        let waited = wait_on G H reports_voter sight.times (db, w) in
        elim (Result-cases result) [
          | inr (e, failed) ↦ to (some (err (wrap "node" e), (db, w))) (ground arith) tt
          | inl (m, known) ↦ elim (Option-cases waited) [
            | inl waits ↦ absurd (
                subst (Ends Anything) waits
                  (wait_on-Ends reports_voter sight.times (db, w) (timed.votes n)))
            | inr ((answer, (db', w')), stopped) ↦ elim (Result-cases answer) [
              | inr (e, late) ↦ to (some (err (wrap "node" e), (db', w'))) (ground arith) tt
              | inl (_, votes) ↦
                  to
                    (some (
                      elim (status db').0 [ err e ↦ err (wrap "node" e) | ok _ ↦ done ],
                      ((status db').1, w'),
                    ))
                    (ground arith) tt
            ]
          ]
        ]

    await_voters-Ends :
        (n count : ℕ) (nodes : List (Db B R)) (w : B.World)
        → length nodes ≡ count
        → Ends (HasCount count) (await_voters G H view.sights n nodes w)
    unfolding await_voters
    await_voters-Ends n count [] w many = many
    await_voters-Ends n zero (db ∷ nodes) w many = absurd (omega arith)
    await_voters-Ends n (suc count) (db ∷ nodes) w many =
        let to = Ends-to (HasCount (suc count)) (await_voters G H view.sights n (db ∷ nodes) w) in
        elim (Option-cases (await_voter G H (view.sights n) (db, w))) [
          | inl waits ↦ absurd (subst (Ends Anything) waits (await_voter-Ends n (db, w)))
          | inr ((answer, (db', w')), ended) ↦ elim (Result-cases answer) [
            | inr (e, failed) ↦ to (some (err e, (db' ∷ nodes, w'))) (ground arith) many
            | inl (_, votes) ↦
                let rest = await_voters-Ends (suc n) count nodes w' (omega arith) in
                elim (Option-cases (await_voters G H view.sights (suc n) nodes w')) [
                  | inl waits ↦ absurd (subst (Ends (HasCount count)) waits rest)
                  | inr ((result, (nodes', w'')), found) ↦
                      to (some (result, (db' ∷ nodes', w''))) (ground arith)
                        (ap suc (Ends-left (HasCount count) found rest))
                ]
          ]
        ]

    read_later-Ends : (key : Bytes) (s : Scene G H) → Ends Anything (read_later G H key s)
    unfolding read_later
    read_later-Ends key s = tt

    scan_later-Ends : (s : Scene G H) → Ends Anything (scan_later G H s)
    unfolding scan_later
    scan_later-Ends s = tt

    demo_reads-Ends : (s : Scene G H) → Ends Anything (demo_reads G H view s)
    unfolding demo_reads
    demo_reads-Ends s =
        and_then-Ends Anything _ _
          (wait_on-Ends (sees_value G (codes "user:2") (codes "grace")) view.replicates s
            timed.replicates)
          λ _ s₁ _. and_then-Ends Anything _ _ (read_later-Ends (codes "user:2") s₁) λ _ s₂ _.
            and_then-Ends Anything _ _
              (wait_on-Ends (misses_key G (codes "user:1")) view.deletes s₂ timed.deletes)
              λ _ s₃ _. scan_later-Ends s₃

    demo_ttl-Ends : (s : Scene G H) → Ends Anything (demo_ttl G H view s)
    unfolding demo_ttl
    demo_ttl-Ends s =
        and_then-Ends Anything _ _
          (wait_on-Ends (sees_key G (codes "session:xyz")) view.session s timed.session)
          λ _ s₁ _. tt

    pub demo-Ends : (s : Stage G H) → HasCount 3 s → Ends (HasCount 3) (demo G H view s)
    unfolding demo form_cluster
    demo-Ends s many =
        and_then-Ends (HasCount 3) _ _
          (and_then-Ends (HasCount 3) _ _ (on_first-Ends _ s many) λ _ s₁ many₁.
            and_then-Ends (HasCount 3) _ _ (await_voters-Ends 0 3 s₁.0 s₁.1 many₁)
              λ _ s₂ many₂. on_first-Ends _ s₂ many₂)
          λ _ s₁ many₁. and_then-Ends (HasCount 3) _ _ (on_first-Ends _ s₁ many₁) λ _ s₂ many₂.
            let found = first_follower-bound 0 s₂.0 in
            at_node-Ends (first_follower 0 s₂.0).0 (demo_follower G H view) 3
              (first_follower 0 s₂.0).1 s₂.1
              (λ s₃.
                and_then-Ends Anything (demo_reads G H view s₃) _ (demo_reads-Ends s₃)
                  λ _ s₄ _. demo_ttl-Ends s₄)
              (ground arith) (first_follower-length 0 s₂.0 ∙ many₂)
