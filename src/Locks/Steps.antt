-- ===== src/Locks/Steps.antt =====
-- Every step keeps the invariant.
use honeybadger.Base.{suc, refl, sym, ◌∙◌, none, ◌∷◌, arith}
use honeybadger.Errors.{err, done, err_closed}
use honeybadger.Badger.{Badger}
use honeybadger.Node.{Node}
use honeybadger.Restore.{move_dirs, wipe_and_load}
use honeybadger.Close.{close_store}
use honeybadger.Locks.{
  idle, passed, shared, pinned, returning, swapping, swap_closed, replacing, replace_closed,
  closing, close_closed, unlocking, used, swapped, replaced, store_closed, System, swap_first,
  replace_first, Step, check_fails, check_passes, share, share_backup, load_nil, load, call,
  call_stale, unshare, lock, swap_close, swap_move, replace_close, replace_fail, replace_load,
  close_nil, close_first, close_forget, unlock, set_flag,
}
use honeybadger.Locks.Invariant.{IsSound, reader-IsSound, call-IsSound, still_quiet, no_writer}
use honeybadger.Locks.Sections.{
  swap_halves, replace_halves, closed-swap_first, closed-replace_first, flag-IsSound, Link-at,
  writer-IsSound, settle-IsSound, lock-IsSound,
}

module _ {B : Badger} {A : Type 0} where
  pub Step-IsSound :
      {n₀ : Node B} {w₀ : B.World} {s t : System B A} → Step s t → IsSound n₀ w₀ s → IsSound n₀ w₀ t
  unfolding close_store
  Step-IsSound {s = s} (check_fails i fn at closed) sound = record {
    exclusive = sound.exclusive;
    live = sound.live;
    fresh = sound.fresh;
    settled = sound.settled;
    settled_world = sound.settled_world;
    serial =
        (sound.settled, (sound.settled_world, (sound.serial, (sound.flag ∙ closed, refl, refl))));
    flag = sound.flag;
    linked = sound.linked;
    quiet = sound.quiet;
  }
  Step-IsSound {s = s} (check_passes i fn at open_) sound =
      reader-IsSound sound i (passed fn) s.history refl (λ h. absurd (ground arith))
        (λ f g h. absurd (ground arith)) sound.serial
        (still_quiet sound i (passed fn) (ground arith))
  Step-IsSound {s = s} (share i fn at free) sound =
      reader-IsSound sound i (shared fn) s.history refl (λ h. free) (λ f g h. absurd (ground arith))
        sound.serial (still_quiet sound i (shared fn) (ground arith))
  Step-IsSound {s = s} (share_backup i fn at free) sound =
      reader-IsSound sound i (shared fn) s.history refl (λ h. free) (λ f g h. absurd (ground arith))
        sound.serial (still_quiet sound i (shared fn) (ground arith))
  Step-IsSound {s = s} (load_nil i fn at gone) sound =
      let free = no_writer sound i (ground arith) (ground arith) in
      let (same, same_world) = sound.quiet free in
      reader-IsSound sound i (returning (err err_closed)) (used fn (err err_closed) ∷ s.history)
        refl (λ h. free) (λ f g h. absurd (ground arith))
        (sound.settled, (sound.settled_world, (sound.serial, (ground arith, refl))))
        (still_quiet sound i (returning (err err_closed)) (ground arith))
  Step-IsSound {s = s} (load i fn d at stored) sound =
      reader-IsSound sound i (pinned fn s.generation) s.history refl
        (λ h. no_writer sound i (ground arith) (ground arith))
        (λ f g h. (ground arith, (d, stored))) sound.serial
        (still_quiet sound i (pinned fn s.generation) (ground arith))
  Step-IsSound {s = s} (call i fn g d at current stored) sound =
      call-IsSound sound i fn d (no_writer sound i (ground arith) (ground arith)) stored
  Step-IsSound {s = s} (call_stale i fn g r at stale) sound =
      absurd (stale (sound.live i fn g at).0)
  Step-IsSound {s = s} (unshare i r at) sound =
      reader-IsSound sound i idle s.history refl (λ h. absurd (ground arith))
        (λ f g h. absurd (ground arith)) sound.serial (still_quiet sound i idle (ground arith))
  Step-IsSound {s = s} (lock i p at kind free) sound = lock-IsSound sound i p free kind
  Step-IsSound {s = s} (swap_close i at) sound =
      let (same, same_world) = Link-at sound i swapping at in
      writer-IsSound sound i swapping swap_closed (swap_first B s.node s.world).0
        (swap_first B s.node s.world).1 (suc s.generation) s.history sound.settled
        sound.settled_world at refl refl sound.serial
        (sound.flag ∙ sym (closed-swap_first s.node s.world)) (ground arith)
  Step-IsSound {s = s} (swap_move i at) sound =
      let link = Link-at sound i swap_closed at in
      settle-IsSound sound i swap_closed (move_dirs B s.node s.world).1
        (move_dirs B s.node s.world).2 (suc s.generation) (swapped (move_dirs B s.node s.world).0)
        at refl (ground (arith, swap_halves sound.settled sound.settled_world))
  Step-IsSound {s = s} (replace_close i snap at closed) sound =
      let (same, same_world) = Link-at sound i (replacing snap) at in
      writer-IsSound sound i (replacing snap) (replace_closed snap)
        (replace_first B s.node s.world).1 (replace_first B s.node s.world).2 (suc s.generation)
        s.history sound.settled sound.settled_world at refl refl sound.serial
        (sound.flag ∙ sym (closed-replace_first s.node s.world)) (ground arith)
  Step-IsSound {s = s} (replace_fail i snap e at failed) sound =
      let (same, same_world) = Link-at sound i (replacing snap) at in
      settle-IsSound sound i (replacing snap) (replace_first B s.node s.world).1
        (replace_first B s.node s.world).2 (suc s.generation) (replaced snap (err e)) at refl
        (ground (arith, replace_halves snap sound.settled sound.settled_world))
  Step-IsSound {s = s} (replace_load i snap at) sound =
      let link = Link-at sound i (replace_closed snap) at in
      settle-IsSound sound i (replace_closed snap) (wipe_and_load B snap s.node s.world).1
        (wipe_and_load B snap s.node s.world).2 (suc s.generation)
        (replaced snap (wipe_and_load B snap s.node s.world).0) at refl
        (ground (arith, replace_halves snap sound.settled sound.settled_world))
  Step-IsSound {s = s} (close_nil i at gone) sound =
      let (same, same_world) = Link-at sound i closing at in
      settle-IsSound sound i closing s.node s.world s.generation (store_closed done) at refl
        (ground arith)
  Step-IsSound {s = s} (close_first i d at stored) sound =
      let (same, same_world) = Link-at sound i closing at in
      writer-IsSound sound i closing (close_closed (B.close d s.world).0) s.node
        (B.close d s.world).1 (suc s.generation) s.history sound.settled sound.settled_world at refl
        refl sound.serial sound.flag (d, (ground arith, ground arith, same))
  Step-IsSound {s = s} (close_forget i r at) sound =
      let (d, (stored, closed, same)) = Link-at sound i (close_closed r) at in
      settle-IsSound sound i (close_closed r) (record (s.node) { store = none }) s.world
        (suc s.generation) (store_closed r) at refl (ground arith)
  Step-IsSound {s = s} (unlock i at) sound =
      reader-IsSound sound i idle s.history refl (λ h. absurd (ground arith))
        (λ f g h. absurd (ground arith)) sound.serial (λ _. Link-at sound i unlocking at)
  Step-IsSound set_flag sound = flag-IsSound sound
