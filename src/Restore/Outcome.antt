-- ===== src/Restore/Outcome.antt =====
-- What a whole restore does to the node, in both layouts and in every outcome.
use honeybadger.Base.{Bytes, ◌≡◌, ◌∙◌, none, some, arith, inl, inr, Bool-cases, Option-cases}
use honeybadger.Errors.{ok, Result-cases}
use honeybadger.Badger.{Badger, TxnLaws, DiskLaws}
use honeybadger.Node.{Node}
use honeybadger.Restore.{
  staging_options, restore_err, stage_snapshot, restore_staged, wipe_dir, wipe_dirs, load_in_place,
  wipe_and_load, restore_in_place, is_separate, restore,
}
use honeybadger.Restore.Stage.{stage_ok}
use honeybadger.Restore.Swap.{IsPlaced}
use honeybadger.Restore.Success.{swap_ok}

module _ (B : Badger) (L : TxnLaws B) (D : DiskLaws B L) where
  wipe_dir_ok :
      (dir : Bytes) (w : B.World) (k : Bytes)
      → (wipe_dir B dir w).0 ≡ ok tt
      → D.on_disk (wipe_dir B dir w).1 dir k ≡ none
  unfolding wipe_dir
  wipe_dir_ok dir w k h =
      ground
        (arith, D.remove_all_empties dir w k, D.mkdir_all_frame dir dir (B.remove_all dir w).1 k)

  -- Wiping a directory adds nothing to another, apart or not.
  wipe_dir_adds_nothing :
      (dir q : Bytes) (w : B.World) (k : Bytes)
      → D.on_disk w q k ≡ none
      → D.on_disk (wipe_dir B dir w).1 q k ≡ none
  unfolding wipe_dir
  wipe_dir_adds_nothing dir q w k h =
      ground (
        arith,
        D.remove_all_adds_nothing dir q w k,
        D.mkdir_all_frame dir q (B.remove_all dir w).1 k,
      )

  load_in_place_ok :
      (snap : Bytes) (n : Node B) (w : B.World)
      → n.badger_opts.dir ≡ n.badger_dir
      → ((k : Bytes) → D.on_disk w n.badger_dir k ≡ none)
      → (load_in_place B snap n w).0 ≡ ok tt
      → (d : B.Db) × ((load_in_place B snap n w).1.store ≡ some d)
        × ((load_in_place B snap n w).1.applied_index ≡ 0)
        × (D.home d ≡ n.badger_dir)
        × ((k : Bytes) → L.stored d k ≡ D.snapshot snap k)
  unfolding load_in_place restore_err
  load_in_place_ok snap n w dir empty h = elim (Result-cases (B.open_db n.badger_opts w).0) [
    | inr (e, failed) ↦ absurd (ground arith)
    | inl (d, opened) ↦
        let w₁ = (B.open_db n.badger_opts w).1 in
        (
          (B.load d snap w₁).1,
          ground arith,
          ground arith,
          D.home-load d snap w₁ ∙ D.home-open n.badger_opts w d opened ∙ dir,
          λ k.
              ground (
                arith,
                D.load_writes d snap w₁ k,
                D.open_reads n.badger_opts w d k opened,
                empty k,
              ),
        )
  ]

  wipe_and_load_ok :
      (snap : Bytes) (n : Node B) (w : B.World)
      → n.badger_opts.dir ≡ n.badger_dir
      → (wipe_and_load B snap n w).0 ≡ ok tt
      → (d : B.Db) × ((wipe_and_load B snap n w).1.store ≡ some d)
        × ((wipe_and_load B snap n w).1.applied_index ≡ 0)
        × (D.home d ≡ n.badger_dir)
        × ((k : Bytes) → L.stored d k ≡ D.snapshot snap k)
  unfolding wipe_and_load wipe_dirs restore_err
  wipe_and_load_ok snap n w dir h =
      let vd = n.badger_opts.value_dir in
      let w₁ = (wipe_dir B n.badger_dir w).1 in
      let w₂ = (wipe_dir B vd w₁).1 in
      elim (Result-cases (wipe_dir B n.badger_dir w).0) [
        | inr (e, failed) ↦ absurd (ground arith)
        | inl (_, wiped) ↦ elim (Result-cases (wipe_dir B vd w₁).0) [
          | inr (e, failed) ↦ absurd (ground arith)
          | inl (_, wiped_values) ↦
              let (d, published, reset, home, holds) =
                load_in_place_ok snap n w₂ dir
                  (λ k.
                    wipe_dir_adds_nothing vd n.badger_dir w₁ k (wipe_dir_ok n.badger_dir w k wiped))
                  (ground arith) in
              (d, ground arith, ground arith, home, holds)
        ]
      ]

  restore_in_place_ok :
      (snap : Bytes) (n : Node B) (w : B.World)
      → n.badger_opts.dir ≡ n.badger_dir
      → (restore_in_place B snap n w).0 ≡ ok tt
      → (d : B.Db) × ((restore_in_place B snap n w).1.store ≡ some d)
        × ((restore_in_place B snap n w).1.applied_index ≡ 0)
        × (D.home d ≡ n.badger_dir)
        × ((k : Bytes) → L.stored d k ≡ D.snapshot snap k)
  unfolding restore_in_place restore_err
  restore_in_place_ok snap n w dir h = elim (Option-cases n.store) [
    | inl gone ↦
        let (d, published, reset, home, holds) = wipe_and_load_ok snap n w dir (ground arith) in
        (d, ground arith, ground arith, home, holds)
    | inr (d₀, live) ↦
        let n' : Node B = record n { store = none } in
        let w₁ = (B.close d₀ w).1 in
        elim (Result-cases (B.close d₀ w).0) [
          | inr (e, failed) ↦ absurd (ground arith)
          | inl (_, closed) ↦
              let (d, published, reset, home, holds) =
                wipe_and_load_ok snap n' w₁ dir (ground arith) in
              (d, ground arith, ground arith, home, holds)
        ]
  ]

  restore_staged_ok :
      (snap : Bytes) (n : Node B) (w : B.World)
      → IsPlaced D n
      → (restore_staged B snap n w).0 ≡ ok tt
      → (d : B.Db) × ((restore_staged B snap n w).1.store ≡ some d)
        × ((restore_staged B snap n w).1.applied_index ≡ 0)
        × (D.home d ≡ n.badger_dir)
        × ((k : Bytes) → L.stored d k ≡ D.snapshot snap k)
  unfolding restore_staged restore_err
  restore_staged_ok snap n w placed h =
      let opts = staging_options B n in
      let w₁ = (stage_snapshot B opts snap w).1 in
      elim (Result-cases (stage_snapshot B opts snap w).0) [
        | inr (e, failed) ↦ absurd (ground arith)
        | inl (_, staged) ↦
            let (d, published, reset, home, holds) = swap_ok B L D n w₁ placed (ground arith) in
            (
              d,
              ground arith,
              ground arith,
              home,
              λ k. holds k ∙ stage_ok B L D opts snap w k staged,
            )
      ]

  -- A restore that returns nil, in either layout, publishes a live store in the node's directory
  -- that holds under every key exactly what the snapshot holds, and resets the applied index to 0,
  -- if the node's directories lie as `IsPlaced` says.
  pub restore_ok :
      (snap : Bytes) (n : Node B) (w : B.World)
      → IsPlaced D n
      → (restore B snap n w).0 ≡ ok tt
      → (d : B.Db) × ((restore B snap n w).1.store ≡ some d)
        × ((restore B snap n w).1.applied_index ≡ 0)
        × (D.home d ≡ n.badger_dir)
        × ((k : Bytes) → L.stored d k ≡ D.snapshot snap k)
  unfolding restore
  restore_ok snap n w placed h = elim (Bool-cases (is_separate B n)) [
    | inl apart ↦
        let (d, published, reset, home, holds) =
          restore_in_place_ok snap n w placed.dir_eq (ground arith) in
        (d, ground arith, ground arith, home, holds)
    | inr together ↦
        let (d, published, reset, home, holds) = restore_staged_ok snap n w placed (ground arith) in
        (d, ground arith, ground arith, home, holds)
  ]
