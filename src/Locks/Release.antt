-- ===== src/Locks/Release.antt =====
-- db.go, fsm.go: a thread that holds `storeMu` waits for nobody.
use honeybadger.Base.{
  put, ℕ, ◌==◌, ◌≡◌, refl, true, false, some, arith, inl, inr, Option-cases, Bytes, ap, ◌∙◌,
}
use honeybadger.Errors.{Result, err, err_closed, Result-cases}
use honeybadger.Badger.{Badger}
use honeybadger.Node.{Node}
use honeybadger.Locks.{
  Use, Pc, idle, passed, shared, pinned, returning, swapping, swap_closed, replacing,
  replace_closed, closing, close_closed, unlocking, System, holds, replace_first, Step, load_nil,
  load, call, unshare, swap_close, swap_move, replace_close, replace_fail, replace_load, close_nil,
  close_first, close_forget, unlock,
}
use honeybadger.Locks.Atomicity.{Reach, here, next, start}
use honeybadger.Locks.Invariant.{IsLive}
use honeybadger.Locks.Safety.{Reach-IsSound}

module _ {B : Badger} {A : Type 0} where
  -- Steps after which the thread holds no lock, and all others stand where they stood.
  abbrev pub Releases : ℕ → System B A → Type 0
  Releases i s =
      (t : System B A) × (Reach s t
        × (t.pc i ≡ idle)
        × ((j : ℕ) → (i == j) ≡ false → t.pc j ≡ s.pc j))

  Reach-trans : {s t u : System B A} → Reach s t → Reach t u → Reach s u
  Reach-trans path here = path
  Reach-trans path (next more step) = next (Reach-trans path more) step

  module _ (i : ℕ) where
    put_here : (pc : ℕ → Pc B A) (p : Pc B A) → put pc i p i ≡ p
    put_here pc p = ground arith

    -- A step of the thread to `q`, and what it can do from there.
    after :
        {s t : System B A} (q : Pc B A)
        → Step s t
        → t.pc ≡ put s.pc i q
        → (t.pc i ≡ q → Releases i t)
        → Releases i s
    after {s} {t} q step moved rest =
        let (u, (path, ends, apart)) = rest (ap (λ pc. pc i) moved ∙ put_here s.pc q) in
        let others : (j : ℕ) → (i == j) ≡ false → u.pc j ≡ s.pc j =
          λ j other. apart j other ∙ ap (λ pc. pc j) moved ∙ ground (arith, other) in
        (u, (Reach-trans (next here step) path, ends, others))

    at_idle : {s : System B A} → s.pc i ≡ idle → Releases i s
    at_idle {s} at = (s, (here, at, λ j other. refl))

    at_returning : {s : System B A} (r : Result A) → s.pc i ≡ returning r → Releases i s
    at_returning r at = after idle (unshare i r at) refl at_idle

    at_unlocking : {s : System B A} → s.pc i ≡ unlocking → Releases i s
    at_unlocking at = after idle (unlock i at) refl at_idle

    at_pinned :
        {s : System B A} (fn : Use B A) (g : ℕ)
        → s.pc i ≡ pinned fn g
        → (g ≡ s.generation) × ((d : B.Db) × (s.node.store ≡ some d))
        → Releases i s
    at_pinned fn g at (current, (d, stored)) =
        after (returning (fn d).0) (call i fn g d at current stored) refl (at_returning (fn d).0)

    at_shared : {s : System B A} (fn : Use B A) → s.pc i ≡ shared fn → Releases i s
    at_shared {s} fn at = elim (Option-cases s.node.store) [
      | inl gone ↦
          after (returning (err err_closed)) (load_nil i fn at gone) refl
            (at_returning (err err_closed))
      | inr (d, stored) ↦
          after (pinned fn s.generation) (load i fn d at stored) refl
            (λ now. at_pinned fn s.generation now (refl, (d, stored)))
    ]

    at_swap_closed : {s : System B A} → s.pc i ≡ swap_closed → Releases i s
    at_swap_closed at = after unlocking (swap_move i at) refl at_unlocking

    at_replacing : {s : System B A} (snap : Bytes) → s.pc i ≡ replacing snap → Releases i s
    at_replacing {s} snap at = elim (Result-cases (replace_first B s.node s.world).0) [
      | inl (ok_, closed) ↦
          after (replace_closed snap) (replace_close i snap at closed) refl
            (λ now. after unlocking (replace_load i snap now) refl at_unlocking)
      | inr (e, failed) ↦ after unlocking (replace_fail i snap e at failed) refl at_unlocking
    ]

    at_closing : {s : System B A} → s.pc i ≡ closing → Releases i s
    at_closing {s} at = elim (Option-cases s.node.store) [
      | inl gone ↦ after unlocking (close_nil i at gone) refl at_unlocking
      | inr (d, stored) ↦
          after (close_closed (B.close d s.world).0) (close_first i d at stored) refl
            (λ now. after unlocking (close_forget i (B.close d s.world).0 now) refl at_unlocking)
    ]

    at_any :
        {s : System B A} (p : Pc B A)
        → IsLive s.generation s.node.store s.pc
        → s.pc i ≡ p
        → holds p ≡ true
        → Releases i s
    at_any idle live at held = absurd (ground arith)
    at_any (passed fn) live at held = absurd (ground arith)
    at_any (shared fn) live at held = at_shared fn at
    at_any (pinned fn g) live at held = at_pinned fn g at (live i fn g at)
    at_any (returning r) live at held = at_returning r at
    at_any swapping live at held = after swap_closed (swap_close i at) refl at_swap_closed
    at_any swap_closed live at held = at_swap_closed at
    at_any (replacing snap) live at held = at_replacing snap at
    at_any (replace_closed snap) live at held =
        after unlocking (replace_load i snap at) refl at_unlocking
    at_any closing live at held = at_closing at
    at_any (close_closed r) live at held = after unlocking (close_forget i r at) refl at_unlocking
    at_any unlocking live at held = at_unlocking at

  -- In every reachable state a thread that holds storeMu, shared or exclusively, can give it up in
  -- steps during which every other thread stands still: it waits for none of them, whatever a call,
  -- a restore or a close returns.
  pub Reach-Releases :
      {n : Node B} {w : B.World} {s : System B A} (i : ℕ)
      → Reach (start n w) s
      → holds (s.pc i) ≡ true
      → Releases i s
  Reach-Releases {s = s} i path held = at_any i (s.pc i) (Reach-IsSound path).live refl held
