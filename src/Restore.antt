-- ===== src/Restore.antt =====
-- fsm.go: `(*fsm).Restore` with its two layouts, and the helpers that run under the store lock.
--
-- The functions pass the node and the world (the disk and its faults) explicitly. `storeMu` is held
-- exclusively through `swap` and `restore_in_place`, so each of these is one step of the node
-- (Locks takes them apart); the staging touches only the world.
pub mod Stage
pub mod Swap
pub mod Success
pub mod Outcome
pub mod Failure
use honeybadger.Base.{
  String, Bytes, codes, ◌++◌, bytes_eq, is_empty, not, ◌&&◌, Bool, List, [], ◌∷◌, Option, none,
  some, if◌then◌else◌,
}
use honeybadger.Errors.{Error, Result, ok, err, done, wrap}
use honeybadger.Badger.{Badger, BadgerOptions}
use honeybadger.Node.{Node, print_line}

abbrev pub tmp_suffix : Bytes
tmp_suffix = codes ".restore-tmp"

abbrev pub old_suffix : Bytes
old_suffix = codes ".restore-old"

-- `stagingDir` and `backupDir`.
abbrev pub staging_dir : Bytes → Bytes
staging_dir live = live ++ tmp_suffix

abbrev pub backup_dir : Bytes → Bytes
backup_dir live = live ++ old_suffix

-- `restoreErr`: the error is printed and comes back wrapped.
unfoldable pub restore_err : {B : Badger} → Error → Node B → Result (Unit {0}) × Node B
restore_err cause n =
    let wrapped = wrap "honeybadger: restore" cause in (err wrapped, print_line wrapped n)

module _ (B : Badger) where
  -- The options of the staging database.
  abbrev pub staging_options : Node B → BadgerOptions B.Tuning
  staging_options n =
      let dir = staging_dir n.badger_dir in record n.badger_opts { dir = dir; value_dir = dir }

  -- A failed step of the staging removes the staging directory.
  abbrev discard : Bytes → Error → B.World → Result (Unit {0}) × B.World
  discard staging e w = (err e, (B.remove_all staging w).1)

  -- The last steps: load the snapshot into the staging database and close it.
  unfoldable pub fill_stage : Bytes → B.Db → Bytes → B.World → Result (Unit {0}) × B.World
  fill_stage staging stage snap w =
      let (loaded, stage', w') = B.load stage snap w in
      elim loaded [
        | err e ↦ discard staging (wrap "load snapshot into staging badger" e) (B.close stage' w').1
        | ok _ ↦
            let (closed, w'') = B.close stage' w' in
            elim closed [
              | err e ↦ discard staging (wrap "close staging badger" e) w''
              | ok _ ↦ (done, w'')
            ]
      ]

  -- The staging phase: the snapshot in a database of its own. The old store keeps serving.
  unfoldable pub stage_snapshot :
      BadgerOptions B.Tuning → Bytes → B.World → Result (Unit {0}) × B.World
  stage_snapshot opts snap w =
      let staging = opts.dir in
      let (cleaned, w₁) = B.remove_all staging w in
      elim cleaned [
        | err e ↦ (err (wrap "clean staging dir" e), w₁)
        | ok _ ↦
            let (made, w₂) = B.mkdir_all staging w₁ in
            elim made [
              | err e ↦ (err (wrap "create staging dir" e), w₂)
              | ok _ ↦
                  let (opened, w₃) = B.open_db opts w₂ in
                  elim opened [
                    | err e ↦ discard staging (wrap "open staging badger" e) w₃
                    | ok stage ↦ fill_stage staging stage snap w₃
                  ]
            ]
      ]

  -- `reopenLocked`
  unfoldable pub reopen : Node B → B.World → Node B × B.World
  reopen n w =
      let (opened, w') = B.open_db n.badger_opts w in
      elim opened [
        | ok store ↦ (record n { store = some store }, w')
        | err e ↦ (
          print_line (wrap "reopen badger after failed restore" e) (record n { store = none }),
          w',
        )
      ]

  -- `rollbackAndReopenLocked`
  unfoldable pub rollback_and_reopen : Bytes → Bytes → Node B → B.World → Node B × B.World
  rollback_and_reopen backup live n w =
      let (moved, w') = B.rename backup live w in
      elim moved [
        | ok _ ↦ reopen n w'
        | err e ↦ reopen (print_line (wrap "roll back badger dir after failed restore" e) n) w'
      ]

  -- Closing the live store, if there is one: what is printed if that fails, and the world.
  unfoldable pub close_quietly : Option B.Db → B.World → List Error × B.World
  close_quietly none w = ([], w)
  close_quietly (some d) w =
      let (closed, w') = B.close d w in
      elim closed [
        | ok _ ↦ ([], w')
        | err e ↦ (wrap "fsm" (wrap "close badger for restore swap" e) ∷ [], w')
      ]

  -- The store is closed and forgotten, whether closing it fails or not.
  unfoldable pub close_live : Node B → B.World → Node B × B.World
  close_live n w =
      let (lines, w') = close_quietly n.store w in
      (record n { store = none; log_lines = n.log_lines ++ lines }, w')

  -- The error of a failed step of the swap, over the node that the rollback left.
  abbrev swap_failed : String → Error → Node B × B.World → Result (Unit {0}) × Node B × B.World
  swap_failed step e after =
      let (n, w) = after in let (r, n') = restore_err (wrap step e) n in (r, n', w)

  -- The swap once both directories are moved: open, drop the old generation, publish.
  unfoldable pub publish : Node B → B.World → Result (Unit {0}) × Node B × B.World
  publish n w =
      let live = n.badger_dir in
      let backup = backup_dir live in
      let (opened, w') = B.open_db n.badger_opts w in
      elim opened [
        | err e ↦
            swap_failed "open restored badger" e
              (rollback_and_reopen backup live n (B.remove_all live w').1)
        | ok store ↦
            (done, record n { store = some store; applied_index = 0 }, (B.remove_all backup w').1)
      ]

  -- The swap of the directories, over a node whose store is closed.
  unfoldable pub move_dirs : Node B → B.World → Result (Unit {0}) × Node B × B.World
  move_dirs n w =
      let live = n.badger_dir in
      let (aside, w₁) = B.rename live (backup_dir live) w in
      elim aside [
        | err e ↦ swap_failed "move live dir aside" e (reopen n w₁)
        | ok _ ↦
            let (placed, w₂) = B.rename (staging_dir live) live w₁ in
            elim placed [
              | err e ↦
                  swap_failed "move staging dir into place" e
                    (rollback_and_reopen (backup_dir live) live n w₂)
              | ok _ ↦ publish n w₂
            ]
      ]

  -- The swap phase, under the exclusive lock.
  unfoldable pub swap : Node B → B.World → Result (Unit {0}) × Node B × B.World
  swap n w =
      let (n', w') = close_live n (B.remove_all (backup_dir n.badger_dir) w).1 in move_dirs n' w'

  -- `Restore` for the normal layout.
  unfoldable pub restore_staged : Bytes → Node B → B.World → Result (Unit {0}) × Node B × B.World
  restore_staged snap n w =
      let (staged, w') = stage_snapshot (staging_options n) snap w in
      elim staged [ err e ↦ let (r, n') = restore_err e n in (r, n', w') | ok _ ↦ swap n w' ]

  -- The loop over `dirs`: each is removed and made again.
  unfoldable pub wipe_dir : Bytes → B.World → Result (Unit {0}) × B.World
  wipe_dir dir w =
      let (wiped, w₁) = B.remove_all dir w in
      elim wiped [
        | err e ↦ (err (wrap "wipe badger dir" e), w₁)
        | ok _ ↦
            let (made, w₂) = B.mkdir_all dir w₁ in
            elim made [ err e ↦ (err (wrap "recreate badger dir" e), w₂) | ok _ ↦ (done, w₂) ]
      ]

  unfoldable pub wipe_dirs : List Bytes → B.World → Result (Unit {0}) × B.World
  wipe_dirs [] w = (done, w)
  wipe_dirs (dir ∷ dirs) w =
      let (wiped, w') = wipe_dir dir w in
      elim wiped [ err e ↦ (err e, w') | ok _ ↦ wipe_dirs dirs w' ]

  -- A failed step of the restore in place.
  abbrev pub in_place_failed :
      String → Error → Node B → B.World → Result (Unit {0}) × Node B × B.World
  in_place_failed step e n w = let (r, n') = restore_err (wrap step e) n in (r, n', w)

  -- The restore in place once the directories are empty.
  unfoldable pub load_in_place : Bytes → Node B → B.World → Result (Unit {0}) × Node B × B.World
  load_in_place snap n w =
      let (opened, w₁) = B.open_db n.badger_opts w in
      elim opened [
        | err e ↦ in_place_failed "reopen badger" e n w₁
        | ok store ↦
            let (loaded, store', w₂) = B.load store snap w₁ in
            elim loaded [
              | err e ↦ in_place_failed "load snapshot" e n (B.close store' w₂).1
              | ok _ ↦ (done, record n { store = some store'; applied_index = 0 }, w₂)
            ]
      ]

  -- The restore in place, over a node whose store is closed.
  unfoldable pub wipe_and_load : Bytes → Node B → B.World → Result (Unit {0}) × Node B × B.World
  wipe_and_load snap n w =
      let (wiped, w') = wipe_dirs (n.badger_dir ∷ n.badger_opts.value_dir ∷ []) w in
      elim wiped [
        | err e ↦ let (r, n') = restore_err e n in (r, n', w')
        | ok _ ↦ load_in_place snap n w'
      ]

  -- `restoreInPlace`
  unfoldable pub restore_in_place : Bytes → Node B → B.World → Result (Unit {0}) × Node B × B.World
  restore_in_place snap n w = elim n.store [
    | none ↦ wipe_and_load snap n w
    | some d ↦
        let (closed, w') = B.close d w in
        elim closed [
          | err e ↦ in_place_failed "close badger" e (record n { store = none }) w'
          | ok _ ↦ wipe_and_load snap (record n { store = none }) w'
        ]
  ]

  -- The test on `ValueDir` at the head of `Restore`.
  unfoldable pub is_separate : Node B → Bool
  is_separate n =
      let vd = n.badger_opts.value_dir in not (is_empty vd) && not (bytes_eq vd n.badger_dir)

  -- `(*fsm).Restore`
  unfoldable pub restore : Bytes → Node B → B.World → Result (Unit {0}) × Node B × B.World
  restore snap n w = if is_separate n then restore_in_place snap n w else restore_staged snap n w
