-- ===== src/Restore/Swap.antt =====
-- The swap phase of a restore: what the node serves after it, in every outcome.
use honeybadger.Base.{Bytes, ◌≡◌, refl, ◌∙◌, ◌⊎◌, Option, none, some, arith, inl, inr}
use honeybadger.Errors.{Error, ok, err, Result-cases}
use honeybadger.Badger.{Badger, Contents, TxnLaws, DiskLaws}
use honeybadger.Node.{Node}
use honeybadger.Restore.{
  staging_dir, backup_dir, restore_err, reopen, rollback_and_reopen, close_quietly, close_live,
  publish, move_dirs, swap,
}

module _ {B : Badger} (L : TxnLaws B) where
  -- What a nil or live store serves: these contents, or nothing.
  abbrev pub Serves : Option B.Db → Contents → Type 0
  Serves store m =
      (store ≡ none) ⊎ ((d : B.Db) × (store ≡ some d) × ((k : Bytes) → L.stored d k ≡ m k))

  pub Serves-cong :
      (s s' : Option B.Db) (m m' : Contents)
      → s' ≡ s
      → ((k : Bytes) → m k ≡ m' k)
      → Serves s m
      → Serves s' m'
  Serves-cong s s' m m' same eq (inl gone) = inl (same ∙ gone)
  Serves-cong s s' m m' same eq (inr (d, live, holds)) = inr (d, same ∙ live, λ k. holds k ∙ eq k)

-- The node opens its database in `badger_dir`, its live store stands there, and the two scratch
-- directories of a restore lie apart from it and from each other.
pub record IsPlaced {B : Badger} {L : TxnLaws B} (D : DiskLaws B L) (n : Node B) : Type 0 where
  pub dir_eq : n.badger_opts.dir ≡ n.badger_dir
  pub home_eq : (d : B.Db) → n.store ≡ some d → D.home d ≡ n.badger_dir
  pub staging_apart : D.Apart (staging_dir n.badger_dir) n.badger_dir
  pub backup_apart : D.Apart (backup_dir n.badger_dir) n.badger_dir
  pub scratch_apart : D.Apart (backup_dir n.badger_dir) (staging_dir n.badger_dir)

module _ (B : Badger) (L : TxnLaws B) (D : DiskLaws B L) where
  reopen-Serves :
      (n : Node B) (w : B.World) → Serves L (reopen B n w).0.store (D.on_disk w n.badger_opts.dir)
  unfolding reopen
  reopen-Serves n w = elim (Result-cases (B.open_db n.badger_opts w).0) [
    | inr (e, failed) ↦ inl (ground arith)
    | inl (d, opened) ↦ inr (d, ground arith, λ k. D.open_reads n.badger_opts w d k opened)
  ]

  -- If the backup can be moved back, the rollback serves what the backup directory held.
  rollback-Serves :
      (n : Node B) (backup live : Bytes) (w : B.World)
      → n.badger_opts.dir ≡ live
      → (B.rename backup live w).0 ≡ ok tt
      → Serves L (rollback_and_reopen B backup live n w).0.store (D.on_disk w backup)
  unfolding rollback_and_reopen
  rollback-Serves n backup live w dir moved =
      Serves-cong L (reopen B n (B.rename backup live w).1).0.store _
        (D.on_disk (B.rename backup live w).1 n.badger_opts.dir) _ (ground arith)
        (λ k. rw dir (D.rename_moves backup live w k moved))
        (reopen-Serves n (B.rename backup live w).1)

  -- The move back of the backup directory where the restored database cannot be opened on the disk
  -- `w`, and is removed: it succeeds.
  abbrev pub OpensOrMovesBack : Node B → B.World → Type 0
  OpensOrMovesBack n w =
      let live = n.badger_dir in
      (e : Error)
      → (B.open_db n.badger_opts w).0 ≡ err e
      → (B.rename (backup_dir live) live (B.remove_all live (B.open_db n.badger_opts w).1).1).0
        ≡ ok tt

  -- The two moves back that a swap can come to, whose moves started on the disk `w`: that, and the
  -- one where the staging directory cannot be moved into place. Each succeeds where it is tried.
  abbrev pub MovesBack : Node B → B.World → Type 0
  MovesBack n w =
      let live = n.badger_dir in
      let w₁ = (B.rename live (backup_dir live) w).1 in
      let w₂ = (B.rename (staging_dir live) live w₁).1 in
      ((e : Error)
        → (B.rename (staging_dir live) live w₁).0 ≡ err e
        → (B.rename (backup_dir live) live w₂).0 ≡ ok tt)
      × OpensOrMovesBack n w₂

  module _ (n : Node B) (placed : IsPlaced D n) where
    publish_failed :
        (w : B.World) (e : Error)
        → OpensOrMovesBack n w
        → (publish B n w).0 ≡ err e
        → Serves L (publish B n w).1.store (D.on_disk w (backup_dir n.badger_dir))
    unfolding publish restore_err
    publish_failed w e moves_back h =
        let live = n.badger_dir in
        let backup = backup_dir live in
        let w₁ = (B.open_db n.badger_opts w).1 in
        let w₂ = (B.remove_all live w₁).1 in
        elim (Result-cases (B.open_db n.badger_opts w).0) [
          | inl (d, opened) ↦ absurd (ground arith)
          | inr (e', failed) ↦
              Serves-cong L (rollback_and_reopen B backup live n w₂).0.store _ (D.on_disk w₂ backup)
                _ (ground arith)
                (λ k.
                  D.remove_all_frame live backup w₁ k (D.Apart-comm backup live placed.backup_apart)
                  ∙ D.open_frame n.badger_opts w backup k)
                (rollback-Serves n backup live w₂ placed.dir_eq (moves_back e' failed))
        ]

    move_dirs_failed :
        (w : B.World) (e : Error)
        → MovesBack n w
        → (move_dirs B n w).0 ≡ err e
        → Serves L (move_dirs B n w).1.store (D.on_disk w n.badger_dir)
    unfolding move_dirs restore_err
    move_dirs_failed w e (moves_back, opens) h =
        let live = n.badger_dir in
        let backup = backup_dir live in
        let staging = staging_dir live in
        let w₁ = (B.rename live backup w).1 in
        let w₂ = (B.rename staging live w₁).1 in
        elim (Result-cases (B.rename live backup w).0) [
          | inr (e₁, failed) ↦
              Serves-cong L (reopen B n w₁).0.store _ (D.on_disk w₁ n.badger_opts.dir) _
                (ground arith)
                (λ k. rw placed.dir_eq (D.rename_fails live backup live w k e₁ failed))
                (reopen-Serves n w₁)
          | inl (_, aside) ↦ elim (Result-cases (B.rename staging live w₁).0) [
            | inr (e₂, failed) ↦
                Serves-cong L (rollback_and_reopen B backup live n w₂).0.store _
                  (D.on_disk w₂ backup) _ (ground arith)
                  (λ k.
                    D.rename_fails staging live backup w₁ k e₂ failed
                    ∙ D.rename_moves live backup w k aside)
                  (rollback-Serves n backup live w₂ placed.dir_eq (moves_back e₂ failed))
            | inl (_, in_place) ↦
                Serves-cong L (publish B n w₂).1.store _ (D.on_disk w₂ backup) _ (ground arith)
                  (λ k.
                    D.rename_frame staging live backup w₁ k
                      (D.Apart-comm backup staging placed.scratch_apart)
                      (D.Apart-comm backup live placed.backup_apart)
                    ∙ D.rename_moves live backup w k aside)
                  (publish_failed w₂ e opens (ground arith))
          ]
        ]

module _ (B : Badger) (L : TxnLaws B) (D : DiskLaws B L) where
  -- A node whose store was closed is placed as before.
  pub closed-IsPlaced : (n : Node B) (w : B.World) → IsPlaced D n → IsPlaced D (close_live B n w).0
  unfolding close_live
  closed-IsPlaced n w placed = record {
    dir_eq = placed.dir_eq;
    home_eq = λ d live. absurd (ground arith);
    staging_apart = placed.staging_apart;
    backup_apart = placed.backup_apart;
    scratch_apart = placed.scratch_apart;
  }

  -- The disk on which the moves of a swap start.
  abbrev pub swap_start : Node B → B.World → B.World
  swap_start n w = (close_live B n (B.remove_all (backup_dir n.badger_dir) w).1).1

  -- A swap that fails leaves the node serving what it served before, or nothing, if closing the
  -- live store does not fail, nor moving the backup directory back where that is tried.
  pub swap_failed-Serves :
      (n : Node B) (w : B.World) (d : B.Db) (e : Error)
      → IsPlaced D n
      → n.store ≡ some d
      → (B.close d (B.remove_all (backup_dir n.badger_dir) w).1).0 ≡ ok tt
      → MovesBack B L D n (swap_start n w)
      → (swap B n w).0 ≡ err e
      → Serves L (swap B n w).1.store (L.stored d)
  unfolding swap close_live close_quietly
  swap_failed-Serves n w d e placed live closes moves_back h =
      let w₁ = (B.remove_all (backup_dir n.badger_dir) w).1 in
      let n' = (close_live B n w₁).0 in
      let w₂ = (close_live B n w₁).1 in
      Serves-cong L (move_dirs B n' w₂).1.store _ (D.on_disk w₂ n.badger_dir) _ refl
        (λ k. ground (arith, D.close_flushes d w₁ k closes, placed.home_eq d live))
        (move_dirs_failed B L D n' (closed-IsPlaced n w₁ placed) w₂ e moves_back h)
