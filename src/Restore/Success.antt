-- ===== src/Restore/Success.antt =====
-- A restore that returns nil publishes a store that holds the snapshot, in both layouts.
use honeybadger.Base.{Bytes, ◌≡◌, refl, ◌∙◌, Option, none, some, arith, inl, inr}
use honeybadger.Errors.{ok, Result-cases}
use honeybadger.Badger.{Badger, TxnLaws, DiskLaws}
use honeybadger.Node.{Node}
use honeybadger.Restore.{
  staging_dir, backup_dir, restore_err, close_quietly, close_live, publish, move_dirs, swap,
}
use honeybadger.Restore.Swap.{IsPlaced, closed-IsPlaced}

module _ (B : Badger) (L : TxnLaws B) (D : DiskLaws B L) where
  -- Closing the live store leaves alone what lies apart from its directory.
  close_quietly_frame :
      (store : Option B.Db) (w : B.World) (q k : Bytes)
      → ((d : B.Db) → store ≡ some d → D.Apart (D.home d) q)
      → D.on_disk (close_quietly B store w).1 q k ≡ D.on_disk w q k
  unfolding close_quietly
  close_quietly_frame none w q k apart = refl
  close_quietly_frame (some d) w q k apart = ground (arith, D.close_frame d q w k (apart d refl))

  publish_ok :
      (n : Node B) (w : B.World)
      → n.badger_opts.dir ≡ n.badger_dir
      → (publish B n w).0 ≡ ok tt
      → (d : B.Db) × ((publish B n w).1.store ≡ some d)
        × ((publish B n w).1.applied_index ≡ 0)
        × (D.home d ≡ n.badger_dir)
        × ((k : Bytes) → L.stored d k ≡ D.on_disk w n.badger_dir k)
  unfolding publish restore_err
  publish_ok n w dir h = elim (Result-cases (B.open_db n.badger_opts w).0) [
    | inr (e, failed) ↦ absurd (ground arith)
    | inl (d, opened) ↦ (
      d,
      ground arith,
      ground arith,
      D.home-open n.badger_opts w d opened ∙ dir,
      λ k. rw dir at (D.open_reads n.badger_opts w d k opened),
    )
  ]

  move_dirs_ok :
      (n : Node B) (w : B.World)
      → IsPlaced D n
      → (move_dirs B n w).0 ≡ ok tt
      → (d : B.Db) × ((move_dirs B n w).1.store ≡ some d)
        × ((move_dirs B n w).1.applied_index ≡ 0)
        × (D.home d ≡ n.badger_dir)
        × ((k : Bytes) → L.stored d k ≡ D.on_disk w (staging_dir n.badger_dir) k)
  unfolding move_dirs restore_err
  move_dirs_ok n w placed h =
      let live = n.badger_dir in
      let backup = backup_dir live in
      let staging = staging_dir live in
      let w₁ = (B.rename live backup w).1 in
      let w₂ = (B.rename staging live w₁).1 in
      elim (Result-cases (B.rename live backup w).0) [
        | inr (e, failed) ↦ absurd (ground arith)
        | inl (_, aside) ↦ elim (Result-cases (B.rename staging live w₁).0) [
          | inr (e, failed) ↦ absurd (ground arith)
          | inl (_, in_place) ↦
              let (d, published, reset, home, holds) =
                publish_ok n w₂ placed.dir_eq (ground arith) in
              (
                d,
                ground arith,
                ground arith,
                home,
                λ k.
                    holds k
                    ∙ D.rename_moves staging live w₁ k in_place
                    ∙ D.rename_frame live backup staging w k
                        (D.Apart-comm staging live placed.staging_apart) placed.scratch_apart,
              )
        ]
      ]

  -- A swap without an error publishes what the staging directory held.
  pub swap_ok :
      (n : Node B) (w : B.World)
      → IsPlaced D n
      → (swap B n w).0 ≡ ok tt
      → (d : B.Db) × ((swap B n w).1.store ≡ some d)
        × ((swap B n w).1.applied_index ≡ 0)
        × (D.home d ≡ n.badger_dir)
        × ((k : Bytes) → L.stored d k ≡ D.on_disk w (staging_dir n.badger_dir) k)
  unfolding swap close_live
  swap_ok n w placed h =
      let live = n.badger_dir in
      let w₁ = (B.remove_all (backup_dir live) w).1 in
      let n' = (close_live B n w₁).0 in
      let w₂ = (close_live B n w₁).1 in
      let (d, published, reset, home, holds) =
        move_dirs_ok n' w₂ (closed-IsPlaced B L D n w₁ placed) h in
      (
        d,
        published,
        reset,
        home,
        λ k.
            holds k
            ∙ close_quietly_frame n.store w₁ (staging_dir live) k
                (λ d' held. rw (placed.home_eq d' held) (D.Apart-comm _ _ placed.staging_apart))
            ∙ D.remove_all_frame (backup_dir live) (staging_dir live) w k placed.scratch_apart,
      )
