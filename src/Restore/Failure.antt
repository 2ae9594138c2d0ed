-- ===== src/Restore/Failure.antt =====
-- What a restore that fails leaves behind.
use honeybadger.Base.{Bytes, ◌≡◌, ◌⊎◌, none, false, arith, inl, inr, Bool-cases}
use honeybadger.Errors.{Error, Result, err, wrap}
use honeybadger.Badger.{Badger, TxnLaws, DiskLaws}
use honeybadger.Node.{Node}
use honeybadger.Restore.{
  backup_dir, staging_dir, staging_options, restore_err, reopen, rollback_and_reopen, close_live,
  publish, move_dirs, swap, stage_snapshot, restore_staged, load_in_place, wipe_and_load,
  restore_in_place, is_separate, restore,
}
use honeybadger.Restore.Stage.{stage_frame}

-- The error under one `fmt.Errorf`.
abbrev pub cause_of : Error → Error
cause_of (wrap text e) = e
cause_of e = e

-- An outcome that, if it is an error, has the label of a restore, and keeps the applied index and
-- the closed flag of `n`.
abbrev KeepsIndex : {B : Badger} → Node B → Result (Unit {0}) → Node B → Type 0
KeepsIndex n r n' =
    (e : Error)
    → r ≡ err e
    → (n'.applied_index ≡ n.applied_index)
      × (n'.closed ≡ n.closed)
      × (e ≡ wrap "honeybadger: restore" (cause_of e))

module _ (B : Badger) where
  reopen_keeps :
      (n : Node B) (w : B.World)
      → ((reopen B n w).0.applied_index ≡ n.applied_index) × ((reopen B n w).0.closed ≡ n.closed)
  unfolding reopen
  reopen_keeps n w = ground arith

  rollback_keeps :
      (n : Node B) (backup live : Bytes) (w : B.World)
      → ((rollback_and_reopen B backup live n w).0.applied_index ≡ n.applied_index)
        × ((rollback_and_reopen B backup live n w).0.closed ≡ n.closed)
  unfolding rollback_and_reopen reopen
  rollback_keeps n backup live w = ground arith

  publish_keeps : (n : Node B) (w : B.World) → KeepsIndex n (publish B n w).0 (publish B n w).1
  unfolding publish restore_err rollback_and_reopen reopen
  publish_keeps n w e h = ground arith

  move_dirs_keeps :
      (n : Node B) (w : B.World) → KeepsIndex n (move_dirs B n w).0 (move_dirs B n w).1
  unfolding move_dirs restore_err rollback_and_reopen reopen
  move_dirs_keeps n w e h =
      let w₂ =
        (B.rename (staging_dir n.badger_dir) n.badger_dir
          (B.rename n.badger_dir (backup_dir n.badger_dir) w).1).1 in
      ground (arith, publish_keeps n w₂ e)

  staged_keeps :
      (snap : Bytes) (n : Node B) (w : B.World)
      → KeepsIndex n (restore_staged B snap n w).0 (restore_staged B snap n w).1
  unfolding restore_staged swap close_live restore_err
  staged_keeps snap n w e h =
      let w₁ = (stage_snapshot B (staging_options B n) snap w).1 in
      let w₂ = (B.remove_all (backup_dir n.badger_dir) w₁).1 in
      ground (arith, move_dirs_keeps (close_live B n w₂).0 (close_live B n w₂).1 e)

  in_place_keeps :
      (snap : Bytes) (n : Node B) (w : B.World)
      → KeepsIndex n (restore_in_place B snap n w).0 (restore_in_place B snap n w).1
  unfolding restore_in_place wipe_and_load load_in_place restore_err
  in_place_keeps snap n w e h = ground arith

  -- A restore in place that fails leaves no store: the node answers ErrClosed to every read.
  in_place_failed_gone :
      (snap : Bytes) (n : Node B) (w : B.World) (e : Error)
      → (restore_in_place B snap n w).0 ≡ err e
      → (restore_in_place B snap n w).1.store ≡ none
  unfolding restore_in_place wipe_and_load load_in_place restore_err
  in_place_failed_gone snap n w e h = ground arith

  -- A restore that fails returns an error labelled as a restore's, and leaves the applied index
  -- and the closed flag as they were, in both layouts and at every step that can fail. In the
  -- layout that is restored in place the node is left without a store.
  pub restore_failed_keeps :
      (snap : Bytes) (n : Node B) (w : B.World) (e : Error)
      → (restore B snap n w).0 ≡ err e
      → ((restore B snap n w).1.applied_index ≡ n.applied_index)
        × ((restore B snap n w).1.closed ≡ n.closed)
        × (e ≡ wrap "honeybadger: restore" (cause_of e))
        × ((is_separate B n ≡ false) ⊎ ((restore B snap n w).1.store ≡ none))
  unfolding restore
  restore_failed_keeps snap n w e h = elim (Bool-cases (is_separate B n)) [
    | inr together ↦ ground (arith, staged_keeps snap n w e)
    | inl separate ↦ ground (arith, in_place_keeps snap n w e, in_place_failed_gone snap n w e)
  ]

module _ (B : Badger) (L : TxnLaws B) (D : DiskLaws B L) where
  -- A failed staging changes nothing: the error comes back labelled, the node keeps its live store
  -- and its applied index, and no directory apart from the staging directory has changed.
  pub staging_failed_untouched :
      (snap : Bytes) (n : Node B) (w : B.World) (e : Error)
      → is_separate B n ≡ false
      → (stage_snapshot B (staging_options B n) snap w).0 ≡ err e
      → ((restore B snap n w).0 ≡ err (wrap "honeybadger: restore" e))
        × ((restore B snap n w).1.store ≡ n.store)
        × ((restore B snap n w).1.applied_index ≡ n.applied_index)
        × ((q k : Bytes)
            → D.Apart (staging_dir n.badger_dir) q
            → D.on_disk (restore B snap n w).2 q k ≡ D.on_disk w q k)
  unfolding restore restore_staged restore_err
  staging_failed_untouched snap n w e together failed = (
    ground arith,
    ground arith,
    ground arith,
    λ q k apart. ground (arith, stage_frame B L D (staging_options B n) snap w q k apart),
  )
