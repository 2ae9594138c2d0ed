-- ===== src/Demo/Waits.antt =====
-- examples/three-node/main.go: the rounds of `waitFor`, and what a wait keeps.
use honeybadger.Base.{
  ℕ, zero, suc, ◌+◌, ◌*◌, ◌≤◌, ◌<◌, ℤ, pos, ◌≡◌, ◌⊎◌, refl, true, false, Bool, Option, none, some,
  arith, inl, inr, Bool-cases, ℕ-cases, ap,
}
use honeybadger.Errors.{ok, Result, err, done, plain}
use honeybadger.Options.{add_duration}
use honeybadger.Cluster.{before}
use honeybadger.Demo.{and_then, Times, wait_for_loop, wait_for, wait_for_interval}

-- What a step that may not return leaves where it does.
abbrev pub After : {A S : Type 0} → (S → Type 0) → Option (A × S) → Type 0
After P none = Unit
After P (some (a, s)) = P s

-- What a step yields where it returns nil.
abbrev pub Yields : {A S : Type 0} → (A → S → Type 0) → Option (Result A × S) → Type 0
Yields Q none = Unit
Yields Q (some (err e, s)) = Unit
Yields Q (some (ok a, s)) = Q a s

pub and_then-Yields :
    {A C S : Type 0} (P : A → S → Type 0) (Q : C → S → Type 0) (x : Option (Result A × S))
    (next : A → S → Option (Result C × S))
    → Yields P x
    → ((a : A) (s : S) → P a s → Yields Q (next a s))
    → Yields Q (and_then x next)
and_then-Yields P Q none next yields later = tt
and_then-Yields P Q (some (err e, s)) next yields later = tt
and_then-Yields P Q (some (ok a, s)) next yields later = later a s yields

module _ {S : Type 0} (cond : S → Bool × S) where
  -- The state once the condition was asked a number of times.
  abbrev pub asked : ℕ → S → S
  asked zero s = s
  asked (suc n) s = asked n (cond s).1

  -- After `n` rounds in which the condition did not hold, ahead of the deadline, there is one in
  -- which it holds, and the wait has succeeded; or one in which it does not, at or after the
  -- deadline, and the wait has failed.
  abbrev pub Stops : ℤ → (ℕ → ℕ) → ℕ → S → ℕ → Result (Unit {0}) → Type 0
  Stops deadline now i s n r =
      ((j : ℕ) → j < n → ((cond (asked j s)).0 ≡ false) × (before (now (i + j)) deadline ≡ true))
      × ((((cond (asked n s)).0 ≡ true) × (r ≡ done))
          ⊎ (((cond (asked n s)).0 ≡ false)
              × (before (now (i + n)) deadline ≡ false)
              × (r ≡ err (plain "timed out"))))

  -- The loop with some fuel, from the round `i` on, returns.
  abbrev Returns : ℕ → ℤ → (ℕ → ℕ) → ℕ → S → Type 0
  Returns fuel deadline now i s =
      (r : Result (Unit {0})) × (n : ℕ) × (wait_for_loop fuel deadline cond now i s
        ≡ some (r, asked (suc n) s))
      × Stops deadline now i s n r

  -- One more round that went on stands before the last.
  Stops-before :
      (deadline : ℤ) (now : ℕ → ℕ) (i : ℕ) (s : S) (n : ℕ) (r : Result (Unit {0}))
      → (cond s).0 ≡ false
      → before (now i) deadline ≡ true
      → Stops deadline now (suc i) (cond s).1 n r
      → Stops deadline now i s (suc n) r
  Stops-before deadline now i s n r fails ahead (quiet, stop) =
      let later : (j : ℕ) → now (i + suc j) ≡ now (suc i + j) = λ j. ap now (omega arith) in
      let first : now (i + 0) ≡ now i = ap now (omega arith) in
      (
        λ j low. elim (ℕ-cases j) [
          | inl now_ ↦ rw now_ (fails, ground arith)
          | inr (j', same) ↦
              rw same
                (let (not_yet, on) = quiet j' (omega arith) in (not_yet, ground (arith, later j')))
        ],
        elim stop [
          | inl holds ↦ inl holds
          | inr (not_yet, over, result) ↦ inr (not_yet, ground (arith, later n), result)
        ],
      )

  -- A round returns, or all that is left is what the loop does from the next round on.
  round-Returns :
      (fuel : ℕ) (deadline : ℤ) (now : ℕ → ℕ) (i : ℕ) (s : S)
      → ((cond s).0 ≡ false
          → before (now i) deadline ≡ true
          → Returns fuel deadline now (suc i) (cond s).1)
      → Returns (suc fuel) deadline now i s
  unfolding wait_for_loop
  round-Returns fuel deadline now i s later =
      let first : now (i + 0) ≡ now i = ap now (omega arith) in
      elim (Bool-cases (cond s).0) [
        | inl holds ↦ (done, 0, ground arith, (λ j low. absurd (omega arith), inl (holds, refl)))
        | inr fails ↦ elim (Bool-cases (before (now i) deadline)) [
          | inr over ↦ (
            err (plain "timed out"),
            0,
            ground arith,
            (λ j low. absurd (omega arith), inr (fails, ground arith, refl)),
          )
          | inl ahead ↦
              let (r, n, result, stops) = later fails ahead in
              (r, suc n, ground arith, Stops-before deadline now i s n r fails ahead stops)
        ]
      ]

  wait_for_loop-Returns :
      (fuel : ℕ) (deadline : ℤ) (now : ℕ → ℕ) (i : ℕ) (s : S)
      → ((last : ℕ) → last ≡ fuel + i → before (now last) deadline ≡ false)
      → Returns (suc fuel) deadline now i s
  wait_for_loop-Returns zero deadline now i s late =
      round-Returns zero deadline now i s
        λ fails ahead. absurd (ground (arith, late i (omega arith)))
  wait_for_loop-Returns (suc fuel) deadline now i s late =
      round-Returns (suc fuel) deadline now i s λ fails ahead.
        wait_for_loop-Returns fuel deadline now (suc i) (cond s).1 λ last h. late last (omega arith)

  -- If the clock moves on by at least the poll interval between two rounds, `fuel + 1` rounds are
  -- enough for waitFor to end, where `fuel` intervals make up the timeout: with nil in the first
  -- round in which the condition holds, or with the timeout error in the first round at or after
  -- the deadline, whichever comes first; a round after the deadline still counts where it holds.
  pub wait_for-Stops :
      (fuel timeout : ℕ) (times : Times) (s : S)
      → ((i : ℕ) → times.start + i * wait_for_interval ≤ times.now i)
      → timeout ≤ fuel * wait_for_interval
      → (r : Result (Unit {0})) × (n : ℕ) × (wait_for (suc fuel) (pos timeout) cond times s
          ≡ some (r, asked (suc n) s))
        × Stops (pos (times.start + timeout)) times.now 0 s n r
  unfolding wait_for add_duration
  wait_for-Stops fuel timeout times s clock enough =
      wait_for_loop-Returns fuel (pos (times.start + timeout)) times.now 0 s λ last h.
        let same : last ≡ fuel = omega arith in
        let at_end : times.start + fuel * wait_for_interval ≤ times.now fuel = clock fuel in
        rw same (ground arith)

  module _ (P : S → Type 0) (keeps : (s : S) → P s → P (cond s).1) where
    -- What each round keeps, the wait keeps.
    After-wait_for_loop :
        (fuel : ℕ) (deadline : ℤ) (now : ℕ → ℕ) (i : ℕ) (s : S)
        → P s
        → After P (wait_for_loop fuel deadline cond now i s)
    unfolding wait_for_loop
    After-wait_for_loop zero deadline now i s h = tt
    After-wait_for_loop (suc fuel) deadline now i s h =
        let kept = keeps s h in
        elim (Bool-cases (cond s).0) [
          | inl holds ↦ rw holds kept
          | inr fails ↦ elim (Bool-cases (before (now i) deadline)) [
            | inr over ↦ rw (fails, over) kept
            | inl ahead ↦
                rw (fails, ahead) (After-wait_for_loop fuel deadline now (suc i) (cond s).1 kept)
          ]
        ]

    pub After-wait_for :
        (fuel : ℕ) (timeout : ℤ) (times : Times) (s : S)
        → P s
        → After P (wait_for fuel timeout cond times s)
    unfolding wait_for
    After-wait_for fuel timeout times s =
        After-wait_for_loop fuel (add_duration times.start timeout) times.now 0 s

    module _ (Q : S → Type 0) (passes : (s : S) → P s → (cond s).0 ≡ true → Q (cond s).1) where
      -- Where the wait returns nil, its last round has passed.
      Yields-wait_for_loop :
          (fuel : ℕ) (deadline : ℤ) (now : ℕ → ℕ) (i : ℕ) (s : S)
          → P s
          → Yields (λ _. Q) (wait_for_loop fuel deadline cond now i s)
      unfolding wait_for_loop
      Yields-wait_for_loop zero deadline now i s h = tt
      Yields-wait_for_loop (suc fuel) deadline now i s h = elim (Bool-cases (cond s).0) [
        | inl holds ↦ rw holds (passes s h holds)
        | inr fails ↦ elim (Bool-cases (before (now i) deadline)) [
          | inr over ↦ rw (fails, over) tt
          | inl ahead ↦
              rw (fails, ahead)
                (Yields-wait_for_loop fuel deadline now (suc i) (cond s).1 (keeps s h))
        ]
      ]

      pub Yields-wait_for :
          (fuel : ℕ) (timeout : ℤ) (times : Times) (s : S)
          → P s
          → Yields (λ _. Q) (wait_for fuel timeout cond times s)
      unfolding wait_for
      Yields-wait_for fuel timeout times s =
          Yields-wait_for_loop fuel (add_duration times.start timeout) times.now 0 s
