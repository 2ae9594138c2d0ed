-- ===== src/Handles/Kept.antt =====
-- The restore, in both layouts and in every outcome, keeps the count of open databases right.
use honeybadger.Base.{ℕ, ◌-◌, ◌≡◌, refl, Bytes, List, [], ◌∷◌, none, arith, inl, inr, Option-cases}
use honeybadger.Errors.{wrap, Result-cases}
use honeybadger.Badger.{Badger, BadgerOptions}
use honeybadger.Node.{Node, print_line}
use honeybadger.Restore.{
  stage_snapshot, staging_options, fill_stage, reopen, rollback_and_reopen, close_quietly,
  close_live, publish, move_dirs, swap, restore_err, restore_staged, wipe_dir, wipe_dirs,
  load_in_place, wipe_and_load, restore_in_place, restore, staging_dir, backup_dir,
}
use honeybadger.Close.{close_store}
use honeybadger.Handles.{HandleLaws, IsBalanced}

module _ (B : Badger) (H : HandleLaws B) where
  open_dbs-fill_stage :
      (staging : Bytes) (stage : B.Db) (snap : Bytes) (w : B.World)
      → H.open_dbs (fill_stage B staging stage snap w).1 ≡ H.open_dbs w - 1
  unfolding fill_stage
  open_dbs-fill_stage staging stage snap w =
      let stage' = (B.load stage snap w).1 in
      let w₁ = (B.load stage snap w).2 in
      let w₂ = (B.close stage' w₁).1 in
      ground (
        arith,
        H.open_dbs-load stage snap w,
        H.open_dbs-close stage' w₁,
        H.open_dbs-remove_all staging w₂,
      )

  open_dbs-stage_snapshot :
      (opts : BadgerOptions B.Tuning) (snap : Bytes) (w : B.World)
      → H.open_dbs (stage_snapshot B opts snap w).1 ≡ H.open_dbs w
  unfolding stage_snapshot
  open_dbs-stage_snapshot opts snap w =
      let w₁ = (B.remove_all opts.dir w).1 in
      let w₂ = (B.mkdir_all opts.dir w₁).1 in
      let w₃ = (B.open_db opts w₂).1 in
      elim (Result-cases (B.open_db opts w₂).0) [
        | inl (d, opened) ↦ ground (
          arith,
          H.open_dbs-remove_all opts.dir w,
          H.open_dbs-mkdir_all opts.dir w₁,
          H.open_dbs-open_db opts w₂ d opened,
          open_dbs-fill_stage opts.dir d snap w₃,
        )
        | inr (e, failed) ↦ ground (
          arith,
          H.open_dbs-remove_all opts.dir w,
          H.open_dbs-mkdir_all opts.dir w₁,
          H.open_dbs-open_failed opts w₂ e failed,
          H.open_dbs-remove_all opts.dir w₃,
        )
      ]

  module _ (others : ℕ) where
    -- Whatever the node's field said, a reopen leaves it with what it opened.
    reopen-IsBalanced :
        (n : Node B) (w : B.World)
        → H.open_dbs w ≡ others
        → IsBalanced H others (reopen B n w).0 (reopen B n w).1
    unfolding reopen
    reopen-IsBalanced n w h = elim (Result-cases (B.open_db n.badger_opts w).0) [
      | inl (d, opened) ↦ ground (arith, H.open_dbs-open_db n.badger_opts w d opened)
      | inr (e, failed) ↦ ground (arith, H.open_dbs-open_failed n.badger_opts w e failed)
    ]

    rollback-IsBalanced :
        (backup live : Bytes) (n : Node B) (w : B.World)
        → H.open_dbs w ≡ others
        → IsBalanced H others
            (rollback_and_reopen B backup live n w).0
            (rollback_and_reopen B backup live n w).1
    unfolding rollback_and_reopen
    rollback-IsBalanced backup live n w h =
        let w₁ = (B.rename backup live w).1 in
        let still : H.open_dbs w₁ ≡ others = omega (arith, H.open_dbs-rename backup live w) in
        elim (Result-cases (B.rename backup live w).0) [
          | inl (_, moved) ↦ ground (arith, reopen-IsBalanced n w₁ still)
          | inr (e, failed) ↦ ground (
            arith,
            reopen-IsBalanced (print_line (wrap "roll back badger dir after failed restore" e) n) w₁
                still,
          )
        ]

    close_live-IsBalanced :
        (n : Node B) (w : B.World)
        → IsBalanced H others n w
        → (H.open_dbs (close_live B n w).1 ≡ others) × ((close_live B n w).0.store ≡ none)
    unfolding close_live close_quietly
    close_live-IsBalanced n w h = elim (Option-cases n.store) [
      | inl gone ↦ ground arith
      | inr (d, live) ↦ ground (arith, H.open_dbs-close d w)
    ]

    publish-IsBalanced :
        (n : Node B) (w : B.World)
        → H.open_dbs w ≡ others
        → IsBalanced H others (publish B n w).1 (publish B n w).2
    unfolding publish restore_err
    publish-IsBalanced n w h =
        let live = n.badger_dir in
        let backup = backup_dir live in
        let w₁ = (B.open_db n.badger_opts w).1 in
        elim (Result-cases (B.open_db n.badger_opts w).0) [
          | inl (d, opened) ↦
              ground (
                arith,
                H.open_dbs-open_db n.badger_opts w d opened,
                H.open_dbs-remove_all backup w₁,
              )
          | inr (e, failed) ↦
              let w₂ = (B.remove_all live w₁).1 in
              let still : H.open_dbs w₂ ≡ others = omega (
                arith,
                H.open_dbs-open_failed n.badger_opts w e failed,
                H.open_dbs-remove_all live w₁,
                h,
              ) in
              ground (arith, rollback-IsBalanced backup live n w₂ still)
        ]

    move_dirs-IsBalanced :
        (n : Node B) (w : B.World)
        → H.open_dbs w ≡ others
        → IsBalanced H others (move_dirs B n w).1 (move_dirs B n w).2
    unfolding move_dirs restore_err
    move_dirs-IsBalanced n w h =
        let live = n.badger_dir in
        let backup = backup_dir live in
        let w₁ = (B.rename live backup w).1 in
        let w₂ = (B.rename (staging_dir live) live w₁).1 in
        let aside : H.open_dbs w₁ ≡ others = omega (arith, H.open_dbs-rename live backup w) in
        let placed : H.open_dbs w₂ ≡ others =
          omega (arith, H.open_dbs-rename (staging_dir live) live w₁) in
        ground (
          arith,
          reopen-IsBalanced n w₁ aside,
          rollback-IsBalanced backup live n w₂ placed,
          publish-IsBalanced n w₂ placed,
        )

    swap-IsBalanced :
        (n : Node B) (w : B.World)
        → IsBalanced H others n w
        → IsBalanced H others (swap B n w).1 (swap B n w).2
    unfolding swap
    swap-IsBalanced n w h =
        let w₁ = (B.remove_all (backup_dir n.badger_dir) w).1 in
        let closed =
          close_live-IsBalanced n w₁
            (omega (arith, H.open_dbs-remove_all (backup_dir n.badger_dir) w)) in
        move_dirs-IsBalanced (close_live B n w₁).0 (close_live B n w₁).1 closed.0

    open_dbs-wipe_dir : (dir : Bytes) (w : B.World) → H.open_dbs (wipe_dir B dir w).1 ≡ H.open_dbs w
    unfolding wipe_dir
    open_dbs-wipe_dir dir w =
        ground (arith, H.open_dbs-remove_all dir w, H.open_dbs-mkdir_all dir (B.remove_all dir w).1)

    open_dbs-wipe_dirs :
        (dirs : List Bytes) (w : B.World) → H.open_dbs (wipe_dirs B dirs w).1 ≡ H.open_dbs w
    unfolding wipe_dirs
    open_dbs-wipe_dirs [] w = refl
    open_dbs-wipe_dirs (dir ∷ dirs) w =
        ground (arith, open_dbs-wipe_dir dir w, open_dbs-wipe_dirs dirs (wipe_dir B dir w).1)

    load_in_place-IsBalanced :
        (snap : Bytes) (n : Node B) (w : B.World)
        → H.open_dbs w ≡ others
        → n.store ≡ none
        → IsBalanced H others (load_in_place B snap n w).1 (load_in_place B snap n w).2
    unfolding load_in_place restore_err
    load_in_place-IsBalanced snap n w h gone =
        let w₁ = (B.open_db n.badger_opts w).1 in
        elim (Result-cases (B.open_db n.badger_opts w).0) [
          | inr (e, failed) ↦ ground (arith, H.open_dbs-open_failed n.badger_opts w e failed)
          | inl (d, opened) ↦
              let loaded = B.load d snap w₁ in
              ground (
                arith,
                H.open_dbs-open_db n.badger_opts w d opened,
                H.open_dbs-load d snap w₁,
                H.open_dbs-close loaded.1 loaded.2,
              )
        ]

    wipe_and_load-IsBalanced :
        (snap : Bytes) (n : Node B) (w : B.World)
        → H.open_dbs w ≡ others
        → n.store ≡ none
        → IsBalanced H others (wipe_and_load B snap n w).1 (wipe_and_load B snap n w).2
    unfolding wipe_and_load restore_err
    wipe_and_load-IsBalanced snap n w h gone =
        let dirs = n.badger_dir ∷ n.badger_opts.value_dir ∷ [] in
        let w₁ = (wipe_dirs B dirs w).1 in
        let still : H.open_dbs w₁ ≡ others = omega (arith, open_dbs-wipe_dirs dirs w) in
        ground (arith, load_in_place-IsBalanced snap n w₁ still gone)

    restore_in_place-IsBalanced :
        (snap : Bytes) (n : Node B) (w : B.World)
        → IsBalanced H others n w
        → IsBalanced H others (restore_in_place B snap n w).1 (restore_in_place B snap n w).2
    unfolding restore_in_place restore_err
    restore_in_place-IsBalanced snap n w h = elim (Option-cases n.store) [
      | inl gone ↦ ground (arith, wipe_and_load-IsBalanced snap n w (ground arith) gone)
      | inr (d, live) ↦
          let w₁ = (B.close d w).1 in
          let still : H.open_dbs w₁ ≡ others = ground (arith, H.open_dbs-close d w) in
          ground (arith, wipe_and_load-IsBalanced snap (record n { store = none }) w₁ still refl)
    ]

    -- A restore keeps the count of open databases, in both layouts and whether it returns nil or an
    -- error at any step: besides those that others have open, exactly the node's live store is
    -- open after it, if that was so before. No staging database and no replaced store is leaked.
    pub restore-IsBalanced :
        (snap : Bytes) (n : Node B) (w : B.World)
        → IsBalanced H others n w
        → IsBalanced H others (restore B snap n w).1 (restore B snap n w).2
    unfolding restore restore_staged restore_err
    restore-IsBalanced snap n w h =
        let opts = staging_options B n in
        let w₁ = (stage_snapshot B opts snap w).1 in
        let still : IsBalanced H others n w₁ = omega (arith, open_dbs-stage_snapshot opts snap w) in
        ground (arith, restore_in_place-IsBalanced snap n w h, swap-IsBalanced n w₁ still)

    -- Closing the store gives up the node's own database.
    pub close_store-IsBalanced :
        (n : Node B) (w : B.World)
        → IsBalanced H others n w
        → ((close_store n w).1.store ≡ none) × (H.open_dbs (close_store n w).2 ≡ others)
    unfolding close_store
    close_store-IsBalanced n w h = elim (Option-cases n.store) [
      | inl gone ↦ ground arith
      | inr (d, live) ↦ ground (arith, H.open_dbs-close d w)
    ]
