-- ===== src/Cluster/Wait.antt =====
-- The wait for a leader: it ends, and what it returns.
use honeybadger.Base.{
  ℕ, zero, suc, ◌+◌, ◌*◌, ◌≤◌, ◌<◌, ℤ, pos, is_empty, ◌≡◌, ◌∙◌, ◌⊎◌, refl, true, false, some, arith,
  inl, inr, Bool-cases, ltb,
}
use honeybadger.Errors.{Result, ok, err, err_closed, wrap, sentinel, no_leader}
use honeybadger.Options.{add_duration}
use honeybadger.Cluster.{
  Member, role_voter, Poll, before, leader_poll_interval, wait_loop, wait_for_leader,
}

-- A poll after which the wait goes on: the node is open, no leader is known, and the deadline is
-- ahead.
abbrev pub IsQuiet : ℤ → Poll → Type 0
IsQuiet deadline p =
    (p.closed ≡ false) × (is_empty p.leader_id ≡ true) × (before p.now deadline ≡ true)

-- A poll that ends the wait with a result: ErrClosed on a closed node, else the leader that is
-- known, else, at or after the deadline, an error that wraps ErrNoLeader.
abbrev pub Ends : ℤ → Poll → Result Member → Type 0
Ends deadline p r =
    ((p.closed ≡ true) × (r ≡ err err_closed))
    ⊎ (((p.closed ≡ false)
          × (is_empty p.leader_id ≡ false)
          × (r ≡ ok (record { id = p.leader_id; raft_addr = p.leader_addr; role = role_voter })))
        ⊎ ((p.closed ≡ false)
            × (is_empty p.leader_id ≡ true)
            × (before p.now deadline ≡ false)
            × (r ≡ err (wrap "after the timeout" (sentinel no_leader)))))

-- The wait that stands at the round `i` ends with the round `e`.
abbrev pub EndsAt : ℤ → (ℕ → Poll) → ℕ → ℕ → Result Member → Type 0
EndsAt deadline polls i e r =
    (i ≤ e) × Ends deadline (polls e) r × ((j : ℕ) → i ≤ j → j < e → IsQuiet deadline (polls j))

poll_cases :
    (deadline : ℤ) (p : Poll) → IsQuiet deadline p ⊎ ((r : Result Member) × Ends deadline p r)
poll_cases deadline p = elim (Bool-cases p.closed) [
  | inl is_closed ↦ inr (err err_closed, inl (is_closed, refl))
  | inr is_open ↦ elim (Bool-cases (is_empty p.leader_id)) [
    | inr known ↦ inr (_, inr (inl (is_open, known, refl)))
    | inl unknown ↦ elim (Bool-cases (before p.now deadline)) [
      | inl ahead ↦ inl (is_open, unknown, ahead)
      | inr passed ↦ inr (_, inr (inr (is_open, unknown, passed, refl)))
    ]
  ]
]

wait_loop-Ends :
    (n : ℕ) (deadline : ℤ) (polls : ℕ → Poll) (i : ℕ) (r : Result Member)
    → Ends deadline (polls i) r
    → wait_loop (suc n) deadline polls i ≡ some r
unfolding wait_loop
wait_loop-Ends n deadline polls i r (inl (is_closed, result)) = ground arith
wait_loop-Ends n deadline polls i r (inr (inl (is_open, known, result))) = ground arith
wait_loop-Ends n deadline polls i r (inr (inr (is_open, unknown, passed, result))) = ground arith

wait_loop_goes_on :
    (n : ℕ) (deadline : ℤ) (polls : ℕ → Poll) (i : ℕ)
    → IsQuiet deadline (polls i)
    → wait_loop (suc n) deadline polls i ≡ wait_loop n deadline polls (suc i)
unfolding wait_loop
wait_loop_goes_on n deadline polls i (is_open, unknown, ahead) = ground arith

IsQuiet-from :
    (deadline : ℤ) (polls : ℕ → Poll) (i e : ℕ)
    → IsQuiet deadline (polls i)
    → ((j : ℕ) → suc i ≤ j → j < e → IsQuiet deadline (polls j))
    → (j : ℕ) → i ≤ j
    → j < e
    → IsQuiet deadline (polls j)
IsQuiet-from deadline polls i e now later j from to = elim (Bool-cases (ltb i j)) [
  | inl after ↦ later j (ground arith) to
  | inr here ↦ let same : i ≡ j = ground arith in rw (← same) now
]

wait_loop_lem :
    (n : ℕ) (deadline : ℤ) (polls : ℕ → Poll) (i : ℕ)
    → ((last : ℕ) → last ≡ n + i → before (polls last).now deadline ≡ false)
    → (r : Result Member) × (wait_loop (suc n) deadline polls i ≡ some r)
      × ((e : ℕ) × EndsAt deadline polls i e r)
wait_loop_lem zero deadline polls i late = elim (poll_cases deadline (polls i)) [
  | inr (r, ends) ↦ (
    r,
    wait_loop-Ends zero deadline polls i r ends,
    (i, (omega arith, ends, λ j from to. absurd (omega arith))),
  )
  | inl (_, _, ahead) ↦ absurd (ground (arith, late i (omega arith)))
]
wait_loop_lem (suc n) deadline polls i late = elim (poll_cases deadline (polls i)) [
  | inr (r, ends) ↦ (
    r,
    wait_loop-Ends (suc n) deadline polls i r ends,
    (i, (omega arith, ends, λ j from to. absurd (omega arith))),
  )
  | inl quiet ↦
      let (r, result, (e, (from, ends, later))) =
        wait_loop_lem n deadline polls (suc i) (λ last h. late last (omega arith)) in
      (
        r,
        wait_loop_goes_on (suc n) deadline polls i quiet ∙ result,
        (e, (omega arith, ends, IsQuiet-from deadline polls i e quiet later)),
      )
]

-- If the clock moves on by at least the poll interval between two polls, then `n + 1` polls are
-- enough for the wait to end, where `n` intervals make up the timeout. It ends with the first poll
-- that finds the node closed, a leader, or the deadline reached, and returns ErrClosed, that
-- leader, or an error that wraps ErrNoLeader; no earlier poll found any of these.
pub wait_for_leader_lem :
    (n start timeout : ℕ) (polls : ℕ → Poll)
    → ((i : ℕ) → start + i * leader_poll_interval ≤ (polls i).now)
    → timeout ≤ n * leader_poll_interval
    → (r : Result Member) × (wait_for_leader (suc n) start (pos timeout) polls ≡ some r)
      × ((e : ℕ) × EndsAt (pos (start + timeout)) polls 0 e r)
unfolding wait_for_leader add_duration
wait_for_leader_lem n start timeout polls clock enough =
    wait_loop_lem n (pos (start + timeout)) polls 0 (λ last h.
      let same : last ≡ n = omega arith in
      let at_end : start + n * leader_poll_interval ≤ (polls last).now = rw (← same) (clock last) in
      ground arith)
