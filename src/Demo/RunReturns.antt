-- ===== src/Demo/RunReturns.antt =====
-- examples/three-node/main.go: the rounds of the waits of a run, and how it comes back.
use honeybadger.Base.{
  ℕ, ◌+◌, ◌*◌, ◌≤◌, ◌≡◌, refl, subst, ◌∙◌, ap, codes, Bytes, List, [], ◌∷◌, none, some, arith, inl,
  inr, Option-cases,
}
use mathlib.Core.List.{reverse}
use honeybadger.Errors.{Result, ok, err, Result-cases}
use honeybadger.Badger.{Badger}
use honeybadger.Raft.{Raft}
use honeybadger.Command.{Gob}
use honeybadger.Cluster.{leader_poll_interval}
use honeybadger.Handles.{HandleLaws}
use honeybadger.Open.{Host}
use honeybadger.Open.Laws.{HostLaws, no_parts}
use honeybadger.Open.Returns.{open_db_returns}
use honeybadger.ThreeNode.{
  Net, Site, Fleet, Ending, returned, panicked, free_port, demo_config, demo_options, boot_loop,
  boot_nodes,
}
use honeybadger.ThreeNode.Boot.{BootLeaves, boot_nodes-BootLeaves}
use honeybadger.Demo.{Stage}
use honeybadger.Demo.Script.{View, demo, run}
use honeybadger.Demo.Returns.{Ends, HasCount, IsTimed, demo-Ends}
use honeybadger.Demo.Shutdown.{length-reverse}

-- The clock of an Open.
abbrev pub IsPolled : {R : Raft} → Site R → Type 0
IsPolled site = (i : ℕ) → site.start + i * leader_poll_interval ≤ (site.polls i).now

module _ (G : Gob) {B : Badger} {R : Raft} (H : Host B R) (N : Net) where
  abbrev AllPolled : List (Bytes × Site R) → Type 0
  AllPolled [] = Unit
  AllPolled ((id, site) ∷ sites) = IsPolled site × AllPolled sites

  boot_loop-Ends :
      (root : Bytes) (sites : List (Bytes × Site R)) (f : Fleet B R N)
      → AllPolled sites
      → ¬ (boot_loop G H N root sites f ≡ none)
  unfolding boot_loop
  boot_loop-Ends root [] f polled stuck = ground arith
  boot_loop-Ends root ((id, site) ∷ sites) f (polled, more) stuck =
      let ported = free_port N f.net in
      elim (Result-cases ported.0) [
        | inr (e, none_free) ↦ ground arith
        | inl (port, free) ↦
            let ((result, r, w), opens) =
              open_db_returns G H (demo_config H root id port) (demo_options f.nodes) site.start
                site.polls site.raft f.world polled in
            elim (Result-cases result) [
              | inr (e, failed) ↦ ground arith
              | inl (db, good) ↦
                  let f' : Fleet B R N = record f {
                    net = ported.1;
                    nodes = db ∷ f.nodes;
                    world = w;
                  } in
                  ground (arith, boot_loop-Ends root sites f' more)
            ]
      ]

  boot_nodes-Ends :
      (root : Bytes) (first second third : Site R) (net : N.State) (w : B.World)
      → AllPolled
          ((codes "node-1", first) ∷ (codes "node-2", second) ∷ (codes "node-3", third) ∷ [])
      → ¬ (boot_nodes G H N root first second third net w ≡ none)
  unfolding boot_nodes
  boot_nodes-Ends root first second third net w = boot_loop-Ends root _ _

module _ (G : Gob) {B : Badger} {R : Raft} {H : Host B R} (D : HandleLaws B) (P : HostLaws H)
    (N : Net) (first second third : Site R) (view : View) (timed : IsTimed view) where
  run-Ends :
      (root : Bytes) (net : N.State) (w : B.World)
      → P.parts first.raft ≡ no_parts
      → P.parts second.raft ≡ no_parts
      → P.parts third.raft ≡ no_parts
      → IsPolled first
      → IsPolled second
      → IsPolled third
      → ¬ (run G H N (ok root) first second third view net w ≡ none)
  unfolding run
  run-Ends root net w idle₁ idle₂ idle₃ polled₁ polled₂ polled₃ stuck =
      let others = D.open_dbs w in
      let x = boot_nodes G H N root first second third net w in
      let leaves = boot_nodes-BootLeaves D P G N root first second third net w idle₁ idle₂ idle₃ in
      elim (Option-cases x) [
        | inl waits ↦
            boot_nodes-Ends G H N root first second third net w (polled₁, (polled₂, (polled₃, tt)))
              waits
        | inr ((panicked, f), booted) ↦ ground arith
        | inr ((returned result, f), booted) ↦ elim (Result-cases result) [
          | inr (e, failed) ↦ ground arith
          | inl (_, good) ↦
              let fine = booted ∙ ap (λ r. some (returned r, f)) good in
              let many = (subst (BootLeaves D P others 3) fine leaves).0 in
              let s : Stage G H = (reverse f.nodes, f.world) in
              let ends = demo-Ends G H view timed s (length-reverse f.nodes ∙ many) in
              elim (Option-cases (demo G H view s)) [
                | inl waits ↦ subst (Ends (HasCount G H 3)) waits ends
                | inr ((answer, (nodes, w')), ended) ↦ ground arith
              ]
        ]
      ]

  -- `run` returns or panics, whatever the nodes and what they stand on do, if the clock moves on by
  -- the poll interval between two rounds of each wait: of Open and of formCluster for a leader, and
  -- of waitFor; and the sites hold nothing of Raft yet.
  pub run_returns :
      (root : Result Bytes) (net : N.State) (w : B.World)
      → P.parts first.raft ≡ no_parts
      → P.parts second.raft ≡ no_parts
      → P.parts third.raft ≡ no_parts
      → IsPolled first
      → IsPolled second
      → IsPolled third
      → (x : Ending × Fleet B R N) × (run G H N root first second third view net w ≡ some x)
  unfolding run
  run_returns (err e) net w idle₁ idle₂ idle₃ polled₁ polled₂ polled₃ = (_, refl)
  run_returns (ok root) net w idle₁ idle₂ idle₃ polled₁ polled₂ polled₃ =
      elim (Option-cases (run G H N (ok root) first second third view net w)) [
        | inr found ↦ found
        | inl stuck ↦ absurd (run-Ends root net w idle₁ idle₂ idle₃ polled₁ polled₂ polled₃ stuck)
      ]
