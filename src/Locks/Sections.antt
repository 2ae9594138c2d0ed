-- ===== src/Locks/Sections.antt =====
-- What the sections under the lock do to the invariant: the lock is taken, the section goes on, and
-- its last step adds its event. Setting the flag keeps it, too.
use honeybadger.Base.{
  put, ℕ, Bytes, ◌≡◌, refl, ap, ◌⊎◌, true, List, ◌∷◌, arith, inl, inr, Option-cases,
}
use honeybadger.Errors.{ok, err, Result-cases}
use honeybadger.Badger.{Badger}
use honeybadger.Node.{Node}
use honeybadger.Restore.{close_live, move_dirs, wipe_and_load, restore_err, swap, restore_in_place}
use honeybadger.Locks.{
  Pc, idle, passed, shared, pinned, returning, swapping, swap_closed, replacing, replace_closed,
  closing, close_closed, unlocking, Event, flagged, System, writes, NoHolder, swap_first,
  replace_first,
}
use honeybadger.Locks.Atomicity.{Atomic, Serial}
use honeybadger.Locks.Invariant.{Link, IsSound, alone-IsSound, others_free, not_writes_of_free}

module _ {B : Badger} where
  abbrev close_flag : Node B → Node B
  close_flag n = record n { closed = true }

  -- The operations in their two halves.
  pub swap_halves :
      (n : Node B) (w : B.World)
      → swap B n w ≡ move_dirs B (swap_first B n w).0 (swap_first B n w).1
  unfolding swap swap_first
  swap_halves n w = refl

  pub replace_halves :
      (snap : Bytes) (n : Node B) (w : B.World)
      → restore_in_place B snap n w ≡ (elim (replace_first B n w).0 [
        | err e ↦ replace_first B n w
        | ok _ ↦ wipe_and_load B snap (replace_first B n w).1 (replace_first B n w).2
      ])
  unfolding restore_in_place replace_first restore_err
  replace_halves snap n w = elim (Option-cases n.store) [
    | inl gone ↦ ground arith
    | inr (d, stored) ↦ ground arith
  ]

  pub closed-swap_first : (n : Node B) (w : B.World) → (swap_first B n w).0.closed ≡ n.closed
  unfolding swap_first close_live
  closed-swap_first n w = refl

  pub closed-replace_first : (n : Node B) (w : B.World) → (replace_first B n w).1.closed ≡ n.closed
  unfolding replace_first restore_err
  closed-replace_first n w = elim (Option-cases n.store) [
    | inl gone ↦ ground arith
    | inr (d, stored) ↦ ground arith
  ]

module _ {B : Badger} {A : Type 0} where
  Link-flagged :
      (m : Node B) (v : B.World) (p : Pc B A) (n : Node B) (w : B.World)
      → Link m v p n w
      → Link (close_flag m) v p (close_flag n) w
  unfolding swap_first replace_first close_live restore_err
  Link-flagged m v idle n w l = tt
  Link-flagged m v (passed fn) n w l = tt
  Link-flagged m v (shared fn) n w l = tt
  Link-flagged m v (pinned fn g) n w l = tt
  Link-flagged m v (returning r) n w l = tt
  Link-flagged m v swapping n w l = ground arith
  Link-flagged m v swap_closed n w l = ground arith
  Link-flagged m v (replacing snap) n w l = ground arith
  Link-flagged m v (replace_closed snap) n w l = elim (Option-cases m.store) [
    | inl gone ↦ ground arith
    | inr (d, stored) ↦ elim (Result-cases (B.close d v).0) [
      | inl (r, closed) ↦ ground arith
      | inr (e, failed) ↦ absurd (ground arith)
    ]
  ]
  Link-flagged m v closing n w l = ground arith
  Link-flagged m v (close_closed r) n w (d, (stored, closed, same)) =
      (d, (stored, closed, ground arith))
  Link-flagged m v unlocking n w l = ground arith

  pub flag-IsSound :
      {n₀ : Node B} {w₀ : B.World} {s : System B A}
      → IsSound n₀ w₀ s
      → IsSound n₀ w₀ (record s {
        node = (let n = s.node in record n { closed = true });
        history = flagged ∷ s.history;
      })
  flag-IsSound {s = s} sound = record {
    exclusive = sound.exclusive;
    live = sound.live;
    fresh = sound.fresh;
    settled = close_flag sound.settled;
    settled_world = sound.settled_world;
    serial = (sound.settled, (sound.settled_world, (sound.serial, (refl, refl))));
    flag = refl;
    linked = λ i.
        Link-flagged sound.settled sound.settled_world (s.pc i) s.node s.world (sound.linked i);
    quiet = λ none_writes.
        let (same, same_world) = sound.quiet none_writes in (ap close_flag same, same_world);
  }

  -- Where the thread is known to stand, its link is known.
  pub Link-at :
      {n₀ : Node B} {w₀ : B.World} {s : System B A} (sound : IsSound n₀ w₀ s) (i : ℕ) (p : Pc B A)
      → s.pc i ≡ p
      → Link sound.settled sound.settled_world p s.node s.world
  Link-at sound i p at = rw (← at) (sound.linked i)

  -- A step of the thread that holds the lock exclusively.
  pub writer-IsSound :
      {n₀ : Node B} {w₀ : B.World} {s : System B A} (sound : IsSound n₀ w₀ s) (i : ℕ) (p q : Pc B A)
      (n : Node B) (w : B.World) (g : ℕ) (events : List (Event B A)) (m : Node B) (v : B.World)
      → s.pc i ≡ p
      → writes p ≡ true
      → writes q ≡ true
      → Serial n₀ w₀ events m v
      → m.closed ≡ n.closed
      → Link m v q n w
      → IsSound n₀ w₀ (record {
        node = n;
        world = w;
        generation = g;
        stale_use = s.stale_use;
        pc = put s.pc i q;
        history = events;
      })
  writer-IsSound sound i p q n w g events m v at writer after serial flag link =
      alone-IsSound sound i q n w g events m v (others_free sound i (ground arith)) after serial
        flag link

  -- The last step of a section adds its event, and the node is settled again.
  pub settle-IsSound :
      {n₀ : Node B} {w₀ : B.World} {s : System B A} (sound : IsSound n₀ w₀ s) (i : ℕ) (p : Pc B A)
      (n : Node B) (w : B.World) (g : ℕ) (e : Event B A)
      → s.pc i ≡ p
      → writes p ≡ true
      → Atomic e sound.settled sound.settled_world n w
      → IsSound n₀ w₀ (record {
        node = n;
        world = w;
        generation = g;
        stale_use = s.stale_use;
        pc = put s.pc i unlocking;
        history = e ∷ s.history;
      })
  settle-IsSound {s = s} sound i p n w g e at writer atomic =
      writer-IsSound sound i p unlocking n w g (e ∷ s.history) n w at writer refl
        (sound.settled, (sound.settled_world, (sound.serial, atomic))) refl (refl, refl)

  -- A thread takes the lock while nobody holds it: the node is settled.
  taken-IsSound :
      {n₀ : Node B} {w₀ : B.World} {s : System B A} (sound : IsSound n₀ w₀ s) (i : ℕ) (p : Pc B A)
      → NoHolder s
      → writes p ≡ true
      → Link sound.settled sound.settled_world p s.node s.world
      → IsSound n₀ w₀ (record s { pc = put s.pc i p })
  taken-IsSound {s = s} sound i p free writer link =
      alone-IsSound sound i p s.node s.world s.generation s.history sound.settled
        sound.settled_world (λ j _. free j) writer sound.serial sound.flag link

  pub lock-IsSound :
      {n₀ : Node B} {w₀ : B.World} {s : System B A} (sound : IsSound n₀ w₀ s) (i : ℕ) (p : Pc B A)
      → NoHolder s
      → (p ≡ swapping) ⊎ (((snap : Bytes) × (p ≡ replacing snap)) ⊎ (p ≡ closing))
      → IsSound n₀ w₀ (record s { pc = put s.pc i p })
  lock-IsSound {s = s} sound i p free kind =
      let settled = sound.quiet (λ j. not_writes_of_free (s.pc j) (free j)) in
      elim kind [
        | inl at ↦ rw at (taken-IsSound sound i swapping free refl settled)
        | inr (inl (snap, at)) ↦ rw at (taken-IsSound sound i (replacing snap) free refl settled)
        | inr (inr at) ↦ rw at (taken-IsSound sound i closing free refl settled)
      ]
