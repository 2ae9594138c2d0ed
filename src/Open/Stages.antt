-- ===== src/Open/Stages.antt =====
-- The stages of `Open`, from the log store to the wait for a leader: what each leaves open.
use honeybadger.Base.{
  ℕ, pos, ◌≡◌, refl, ◌∙◌, codes, Bool, true, false, Option, arith, inl, inr, Option-cases,
  Bool-cases,
}
use honeybadger.Errors.{wrap, Result-cases, errors_is_foreign, raft_cant_bootstrap}
use honeybadger.Badger.{Badger}
use honeybadger.Raft.{Raft, Server, voter}
use honeybadger.Command.{Gob}
use honeybadger.Config.{Config}
use honeybadger.Cluster.{Poll, wait_for_leader}
use honeybadger.Handles.{HandleLaws, IsBalanced}
use honeybadger.Open.{
  Host, as_db, Opening, Exit, opened, waiting, failed, gave_up, run_calls, on_failure,
  drop_transport, drop_log_store, close_opening, raft_config, poll_count,
  new_cluster_leader_timeout, await_leader, start_raft, bootstrap_raft, open_transport,
  open_snapshots, open_raft, transport_max_pool, snapshot_retain_count,
}
use honeybadger.Open.Closes.{close_lem}
use honeybadger.Open.FsmCalls.{run_calls-IsBalanced, raft-run_calls}
use honeybadger.Open.Laws.{Parts, HostLaws, no_parts, all_parts, Ends, Ends-subst}

module _ (G : Gob) {B : Badger} {R : Raft} {H : Host B R} (D : HandleLaws B) (P : HostLaws H) where
  module _ (others : ℕ) where
    close_opening_lem :
        (cfg : Config B.Tuning) (o : Opening B R)
        → IsBalanced D others o.node o.world
        → (P.parts (close_opening cfg o).raft ≡ no_parts)
          × (D.open_dbs (close_opening cfg o).world ≡ others)
    unfolding close_opening
    close_opening_lem cfg o = close_lem D P others (as_db cfg o) o.world refl

    await_leader-Ends :
        (cfg : Config B.Tuning) (start : ℕ) (polls : ℕ → Poll) (armed : Parts) (o : Opening B R)
        → P.parts o.raft ≡ all_parts
        → IsBalanced D others o.node o.world
        → Ends D P others armed (await_leader G H cfg start polls o)
    unfolding await_leader
    await_leader-Ends cfg start polls armed o all h =
        let r = (H.meanwhile o.raft).1 in
        let calls = (H.meanwhile o.raft).0 in
        let o₁ : Opening B R = record o { raft = r } in
        let o₂ = run_calls G calls o₁ in
        let still = run_calls-IsBalanced G D others calls o₁ h in
        let kept : P.parts o₂.raft ≡ all_parts =
          ground (arith, raft-run_calls G D others calls o₁, P.parts-meanwhile o.raft) in
        elim (Option-cases
          (wait_for_leader poll_count start (pos new_cluster_leader_timeout) polls)) [
            | inl none_yet ↦ Ends-subst D P others armed _ (waiting, o₂) (ground arith) tt
            | inr (found, ended) ↦ elim (Result-cases found) [
              | inl (leader, elected) ↦
                  Ends-subst D P others armed _ (opened, o₂) (ground arith) (kept, still)
              | inr (e, gone) ↦
                  Ends-subst D P others armed _
                    (gave_up (wrap "honeybadger: open new cluster" e), close_opening cfg o₂)
                    (ground arith) (close_opening_lem cfg o₂ still)
            ]
          ]

    start_raft-Ends :
        (cfg : Config B.Tuning) (new_cluster : Bool) (start : ℕ) (polls : ℕ → Poll)
        (o : Opening B R)
        → P.parts o.raft ≡ record no_parts { log_store = true; transport = true }
        → IsBalanced D others o.node o.world
        → Ends D P others
            (record no_parts { log_store = true; transport = true })
            (start_raft G H cfg new_cluster start polls o)
    unfolding start_raft
    start_raft-Ends cfg new_cluster start polls o has h =
        let started = H.new_raft (raft_config cfg) o.raft in
        let o₁ : Opening B R = record o { raft = started.2 } in
        let o₂ = run_calls G started.1 o₁ in
        let still = run_calls-IsBalanced G D others started.1 o₁ h in
        let same = raft-run_calls G D others started.1 o₁ in
        elim (Result-cases started.0) [
          | inr (e, refused) ↦
              Ends-subst D P others _ _ (failed (wrap "honeybadger: start raft" e), o₂)
                (ground arith)
                (
                  ground (arith, same, P.parts-new_raft_failed (raft_config cfg) o.raft e refused),
                  still,
                )
          | inl (_, runs) ↦
              let all : P.parts o₂.raft ≡ all_parts =
                ground (arith, same, P.parts-new_raft (raft_config cfg) o.raft runs) in
              elim (Bool-cases new_cluster) [
                | inl forms ↦
                    Ends-subst D P others _ _ (await_leader G H cfg start polls o₂) (ground arith)
                      (await_leader-Ends cfg start polls _ o₂ all still)
                | inr joins ↦ Ends-subst D P others _ _ (opened, o₂) (ground arith) (all, still)
              ]
        ]

    bootstrap_raft-Ends :
        (cfg : Config B.Tuning) (new_cluster : Bool) (start : ℕ) (polls : ℕ → Poll)
        (o : Opening B R)
        → P.parts o.raft ≡ record no_parts { log_store = true; transport = true }
        → IsBalanced D others o.node o.world
        → Ends D P others
            (record no_parts { log_store = true; transport = true })
            (bootstrap_raft G H cfg new_cluster start polls o)
    unfolding bootstrap_raft
    bootstrap_raft-Ends cfg false start polls o has h =
        start_raft-Ends cfg false start polls o has h
    bootstrap_raft-Ends cfg true start polls o has h =
        let server : Server = record {
          suffrage = voter;
          id = cfg.node_id;
          address = R.local_addr o.raft;
        } in
        let booted = H.bootstrap (raft_config cfg) server o.raft in
        let o₁ : Opening B R = record o { raft = booted.1 } in
        let kept = P.parts-bootstrap (raft_config cfg) server o.raft ∙ has in
        let rest = start_raft-Ends cfg true start polls o₁ kept h in
        elim (Result-cases booted.0) [
          | inl (_, done) ↦
              Ends-subst D P others _ _ (start_raft G H cfg true start polls o₁) (ground arith) rest
          | inr (e, refused) ↦ elim (Bool-cases (errors_is_foreign e raft_cant_bootstrap)) [
            | inl again ↦
                Ends-subst D P others _ _ (start_raft G H cfg true start polls o₁) (ground arith)
                  rest
            | inr fatal ↦
                Ends-subst D P others _ _ (failed (wrap "honeybadger: bootstrap cluster" e), o₁)
                  (ground arith) (kept, h)
          ]
        ]

    -- A deferred close of a part, over the errors that still reach it.
    on_failure-Ends :
        (before after : Parts) (cleanup : Opening B R → Opening B R) (x : Exit × Opening B R)
        → ((o : Opening B R)
            → P.parts o.raft ≡ before
            → IsBalanced D others o.node o.world
            → (P.parts (cleanup o).raft ≡ after)
              × IsBalanced D others (cleanup o).node (cleanup o).world)
        → Ends D P others before x
        → Ends D P others after (on_failure cleanup x)
    on_failure-Ends before after cleanup (opened, o) cleans ends = ends
    on_failure-Ends before after cleanup (waiting, o) cleans ends = tt
    on_failure-Ends before after cleanup (gave_up e, o) cleans ends = ends
    on_failure-Ends before after cleanup (failed e, o) cleans ends = cleans o ends.0 ends.1

    open_transport-Ends :
        (cfg : Config B.Tuning) (addr : Option H.Addr) (new_cluster : Bool) (start : ℕ)
        (polls : ℕ → Poll) (o : Opening B R)
        → P.parts o.raft ≡ record no_parts { log_store = true }
        → IsBalanced D others o.node o.world
        → Ends D P others
            (record no_parts { log_store = true })
            (open_transport G H cfg addr new_cluster start polls o)
    unfolding open_transport
    open_transport-Ends cfg addr new_cluster start polls o has h =
        let out = cfg.advanced.log_output in
        let listened = H.new_transport cfg.raft_bind addr transport_max_pool out o.raft in
        let o₁ : Opening B R = record o { raft = listened.1 } in
        elim (Result-cases listened.0) [
          | inr (e, refused) ↦
              Ends-subst D P others _ _ (failed (wrap "honeybadger: open raft transport" e), o₁)
                (ground arith)
                (
                  P.parts-transport_failed cfg.raft_bind addr transport_max_pool out o.raft e
                        refused
                      ∙ has,
                  h,
                )
          | inl (_, listens) ↦
              Ends-subst D P others _ _
                (on_failure drop_transport (bootstrap_raft G H cfg new_cluster start polls o₁))
                (ground arith)
                (on_failure-Ends _ _ drop_transport
                  (bootstrap_raft G H cfg new_cluster start polls o₁)
                  (λ o' held kept. (ground (arith, P.parts-close_transport o'.raft), kept))
                  (bootstrap_raft-Ends cfg new_cluster start polls o₁
                    (ground (
                      arith,
                      P.parts-transport cfg.raft_bind addr transport_max_pool out o.raft listens,
                    ))
                    h))
        ]

    open_snapshots-Ends :
        (cfg : Config B.Tuning) (addr : Option H.Addr) (new_cluster : Bool) (start : ℕ)
        (polls : ℕ → Poll) (o : Opening B R)
        → P.parts o.raft ≡ record no_parts { log_store = true }
        → IsBalanced D others o.node o.world
        → Ends D P others
            (record no_parts { log_store = true })
            (open_snapshots G H cfg addr new_cluster start polls o)
    unfolding open_snapshots
    open_snapshots-Ends cfg addr new_cluster start polls o has h =
        let raft_dir = H.join cfg.data_dir (codes "raft") in
        let out = cfg.advanced.log_output in
        let snaps = H.new_snapshot_store raft_dir snapshot_retain_count out o.raft in
        let o₁ : Opening B R = record o { raft = snaps.1 } in
        let kept = P.parts-snapshots raft_dir snapshot_retain_count out o.raft ∙ has in
        elim (Result-cases snaps.0) [
          | inr (e, refused) ↦
              Ends-subst D P others _ _ (failed (wrap "honeybadger: open snapshot store" e), o₁)
                (ground arith) (kept, h)
          | inl (_, made) ↦
              Ends-subst D P others _ _ (open_transport G H cfg addr new_cluster start polls o₁)
                (ground arith) (open_transport-Ends cfg addr new_cluster start polls o₁ kept h)
        ]

    pub open_raft-Ends :
        (cfg : Config B.Tuning) (addr : Option H.Addr) (new_cluster : Bool) (start : ℕ)
        (polls : ℕ → Poll) (o : Opening B R)
        → P.parts o.raft ≡ no_parts
        → IsBalanced D others o.node o.world
        → Ends D P others no_parts (open_raft G H cfg addr new_cluster start polls o)
    unfolding open_raft
    open_raft-Ends cfg addr new_cluster start polls o has h =
        let raft_dir = H.join cfg.data_dir (codes "raft") in
        let bolt = H.join raft_dir (codes "raft.db") in
        let made = B.mkdir_all raft_dir o.world in
        let o₁ : Opening B R = record o { world = made.1 } in
        let h₁ : IsBalanced D others o.node made.1 =
          omega (arith, D.open_dbs-mkdir_all raft_dir o.world) in
        let logs = H.new_bolt_store bolt o.raft in
        let o₂ : Opening B R = record o₁ { raft = logs.1 } in
        elim (Result-cases made.0) [
          | inr (e, refused) ↦
              Ends-subst D P others _ _ (failed (wrap "honeybadger: create raft dir" e), o₁)
                (ground arith) (has, h₁)
          | inl (_, there) ↦ elim (Result-cases logs.0) [
            | inr (e, refused) ↦
                Ends-subst D P others _ _ (failed (wrap "honeybadger: open raft bolt store" e), o₂)
                  (ground arith) (P.parts-bolt_failed bolt o.raft e refused ∙ has, h₁)
            | inl (_, stored) ↦
                Ends-subst D P others _ _
                  (on_failure drop_log_store
                    (open_snapshots G H cfg addr new_cluster start polls o₂))
                  (ground arith)
                  (on_failure-Ends _ _ drop_log_store
                    (open_snapshots G H cfg addr new_cluster start polls o₂)
                    (λ o' held kept. (ground (arith, P.parts-close_log_store o'.raft), kept))
                    (open_snapshots-Ends cfg addr new_cluster start polls o₂
                      (ground (arith, P.parts-bolt bolt o.raft stored)) h₁))
          ]
        ]
