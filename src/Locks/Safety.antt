-- ===== src/Locks/Safety.antt =====
-- db.go, fsm.go: what the reachable states of `Locks` keep.
use honeybadger.Base.{◌≡◌, refl, sym, subst₂, false, arith}
use honeybadger.Badger.{Badger}
use honeybadger.Node.{Node}
use honeybadger.Locks.{System, NoWriter}
use honeybadger.Locks.Atomicity.{start, Reach, here, next, Serial}
use honeybadger.Locks.Invariant.{IsExclusive, IsLive, IsSound}
use honeybadger.Locks.Steps.{Step-IsSound}

module _ {B : Badger} {A : Type 0} where
  start-IsSound : (n : Node B) (w : B.World) → IsSound {A = A} n w (start n w)
  start-IsSound n w = record {
    exclusive = λ i j w h. absurd (ground arith);
    live = λ i fn g at. absurd (ground arith);
    fresh = refl;
    settled = n;
    settled_world = w;
    serial = (refl, refl);
    flag = refl;
    linked = λ i. tt;
    quiet = λ h. (refl, refl);
  }

  pub Reach-IsSound :
      {n : Node B} {w : B.World} {s : System B A} → Reach (start n w) s → IsSound n w s
  Reach-IsSound {n} {w} here = start-IsSound n w
  Reach-IsSound (next path step) = Step-IsSound step (Reach-IsSound path)

  -- In every state that the threads of a node reach, a thread that holds storeMu exclusively is the
  -- only one that holds it; a call that is about to run has loaded the database that is live, and
  -- db.store is not nil; and no call has run on a database that was closed or replaced since its
  -- load.
  pub Reach-safe :
      {n : Node B} {w : B.World} {s : System B A}
      → Reach (start n w) s
      → IsExclusive s.pc × IsLive s.generation s.node.store s.pc × (s.stale_use ≡ false)
  Reach-safe path = let sound = Reach-IsSound path in (sound.exclusive, sound.live, sound.fresh)

  -- In every reachable state in which nobody holds storeMu exclusively, the node is where the
  -- history, each of its calls, restores and closes taken as one undivided step, leads from the
  -- start, with the results that the threads got.
  pub Reach-Serial :
      {n : Node B} {w : B.World} {s : System B A}
      → Reach (start n w) s
      → NoWriter s
      → Serial n w s.history s.node s.world
  Reach-Serial {n} {w} {s} path quiet =
      let sound = Reach-IsSound path in
      let (same, same_world) = sound.quiet quiet in
      subst₂ (Serial n w s.history) (sym same) (sym same_world) sound.serial
