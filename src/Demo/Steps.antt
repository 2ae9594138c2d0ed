-- ===== src/Demo/Steps.antt =====
-- examples/three-node/main.go: the demo between boot and shutdown, and which nodes it leaves open.
use honeybadger.Base.{
  ℕ, zero, suc, ◌+◌, pos, codes, refl, List, [], ◌∷◌, arith, inl, inr, false, not, Bool-cases,
}
use honeybadger.Errors.{Result, ok, err, Result-cases}
use honeybadger.Badger.{Badger}
use honeybadger.Raft.{Raft}
use honeybadger.Command.{Gob}
use honeybadger.Cluster.{Member, role_none, add_voter}
use honeybadger.Status.{status}
use honeybadger.Db.{Db}
use honeybadger.Write.{set_bytes}
use honeybadger.Options.{SetOption, with_ttl}
use honeybadger.Handles.{HandleLaws, held}
use honeybadger.Open.{Host}
use honeybadger.Open.Laws.{HostLaws}
use honeybadger.ThreeNode.{demo_writes}
use honeybadger.ThreeNode.Writes.{demo_batch}
use honeybadger.Demo.{Sight, join_voters, present_leader, is_state_leader, first_follower, Stage}
use honeybadger.Demo.Script.{View, others_of, on_first, form_cluster, demo_follower, demo}
use honeybadger.Demo.Waits.{After}
use honeybadger.Demo.Calls.{
  CallLaws, IsKept, IsKept-refl, IsKept-trans, IsKept-to, status-IsKept, set_bytes-IsKept,
  batch-IsKept, add_voter-IsKept,
}
use honeybadger.Demo.FollowerSteps.{demo_follower-IsUp}
use honeybadger.Demo.Leaves.{
  and_then-After, AreUp, call-IsUp, await_voters-AreUp, at_node-AreUp, asked-AreUp, rest-AreUp,
  whole-AreUp,
}

module _ {B : Badger} {R : Raft} {H : Host B R} {P : HostLaws H} (C : CallLaws P) where
  join_voters-IsKept :
      (others : List (Db B R)) (db : Db B R) → IsKept C db (join_voters others db).1
  unfolding join_voters
  join_voters-IsKept [] leader = IsKept-refl C leader leader refl
  join_voters-IsKept (db ∷ others) leader =
      let m : Member = record {
        id = db.cfg.node_id;
        raft_addr = db.cfg.raft_bind;
        role = role_none;
      } in
      let kept = add_voter-IsKept C m leader in
      elim (Result-cases (add_voter m leader).0) [
        | inr (e, failed) ↦ IsKept-to C (ground arith) kept
        | inl (_, added) ↦
            IsKept-to C (ground arith)
              (IsKept-trans C kept (join_voters-IsKept others (add_voter m leader).1))
      ]

  demo_writes-IsKept :
      (G : Gob) (now₁ now₂ now₃ : ℕ → ℕ) (db : Db B R)
      → IsKept C db (demo_writes G now₁ now₂ now₃ db).1
  unfolding demo_writes
  demo_writes-IsKept G now₁ now₂ now₃ db =
      let set_user = set_bytes G now₁ (codes "user:1") (codes "ada") [] db in
      let ttl : List SetOption = with_ttl (pos 2_000_000_000) ∷ [] in
      let set_session = set_bytes G now₂ (codes "session:xyz") (codes "token-123") ttl set_user.1 in
      let kept₁ = set_bytes-IsKept C G now₁ (codes "user:1") (codes "ada") [] db in
      let kept₂ =
        IsKept-trans C kept₁
          (set_bytes-IsKept C G now₂ (codes "session:xyz") (codes "token-123") ttl set_user.1) in
      elim (Result-cases set_user.0) [
        | inr (e, failed) ↦ IsKept-to C (ground arith) kept₁
        | inl (_, there) ↦ elim (Result-cases set_session.0) [
          | inr (e, failed) ↦ IsKept-to C (ground arith) kept₂
          | inl (_, there_too) ↦
              IsKept-to C (ground arith)
                (IsKept-trans C kept₂ (batch-IsKept C G now₃ demo_batch set_session.1))
        ]
      ]

module _ (G : Gob) {B : Badger} {R : Raft} {H : Host B R} (D : HandleLaws B) {P : HostLaws H}
    (C : CallLaws P) where
  -- firstFollower only asks the nodes.
  first_follower-AreUp :
      (i count others : ℕ) (nodes : List (Db B R)) (w : B.World)
      → AreUp G D C count others (nodes, w)
      → AreUp G D C count others ((first_follower i nodes).1, w)
  unfolding first_follower
  first_follower-AreUp i count others [] w up = up
  first_follower-AreUp i zero others (db ∷ nodes) w up = absurd (omega (arith, up.0))
  first_follower-AreUp i (suc count) others (db ∷ nodes) w up =
      let db' = (status db).1 in
      let up' = asked-AreUp G D C (suc count) others db db' nodes w (status-IsKept C db) up in
      let rest =
        first_follower-AreUp (suc i) count (others + held db'.node.store) nodes w
          (rest-AreUp G D C count others db' nodes w up') in
      elim (Bool-cases
        (elim (status db).0 [ err _ ↦ false | ok s ↦ not (is_state_leader s.state) ])) [
          | inl follows ↦ rw follows up'
          | inr leads ↦ rw leads (
              whole-AreUp G D C count others db' nodes (first_follower (suc i) nodes).1 w w up'
                rest)
        ]

  -- A call of the leader.
  on_first-AreUp :
      {A : Type 0} (call : Db B R → Result A × Db B R) (count others : ℕ) (s : Stage G H)
      → ((db : Db B R) → IsKept C db (call db).1)
      → AreUp G D C count others s
      → After (AreUp G D C count others) (on_first G H call s)
  on_first-AreUp call count others s keeps up =
      at_node-AreUp G D C 0 _ count others s.0 s.1
        (λ others' s' up'. call-IsUp G D C others' s'.1 (keeps s'.0) up') up

  present_leader-IsKept : (db : Db B R) → IsKept C db (present_leader db).1
  unfolding present_leader
  present_leader-IsKept db = status-IsKept C db

  form_cluster-AreUp :
      (sights : ℕ → Sight) (count others : ℕ) (s : Stage G H)
      → AreUp G D C count others s
      → After (AreUp G D C count others) (form_cluster G H sights s)
  unfolding form_cluster
  form_cluster-AreUp sights count others s up =
      and_then-After (AreUp G D C count others) _ _
        (on_first-AreUp _ count others s (join_voters-IsKept C (others_of s.0)) up)
        λ _ s₁ up₁.
          and_then-After (AreUp G D C count others) _ _
            (await_voters-AreUp G D C sights 0 count others s₁.0 s₁.1 up₁)
            λ _ s₂ up₂. on_first-AreUp _ count others s₂ present_leader-IsKept up₂

  -- Between the boot and the shutdown the demo leaves its nodes up, whatever fails.
  pub demo-AreUp :
      (view : View) (count others : ℕ) (s : Stage G H)
      → AreUp G D C count others s
      → After (AreUp G D C count others) (demo G H view s)
  unfolding demo
  demo-AreUp view count others s up =
      and_then-After (AreUp G D C count others) _ _
        (form_cluster-AreUp view.sights count others s up)
        λ _ s₁ up₁.
          and_then-After (AreUp G D C count others) _ _
            (on_first-AreUp _ count others s₁
              (demo_writes-IsKept C G view.first_write view.second_write view.third_write) up₁)
            λ _ s₂ up₂.
              at_node-AreUp G D C (first_follower 0 s₂.0).0 (demo_follower G H view) count others
                (first_follower 0 s₂.0).1 s₂.1 (λ others'. demo_follower-IsUp G D C others' view)
                (first_follower-AreUp 0 count others s₂.0 s₂.1 up₂)
