-- ===== src/Tests/WaitTests.antt =====
-- A wait for a leader that the third poll finds, and the answers of a follower.
use honeybadger.Base.{ℕ, ◌*◌, ◌+◌, codes, pos, ◌≡◌, false, some, [], arith, if◌then◌else◌, ltb}
use honeybadger.Errors.{Result}
use honeybadger.Cluster.{Member, Poll, wait_for_leader, leader_poll_interval}
use honeybadger.Cluster.Wait.{EndsAt, wait_for_leader_lem}

-- The deadline is the tenth poll.
abbrev polls : ℕ → Poll
polls i = record {
  closed = false;
  leader_id = if ltb i 3 then [] else codes "n2";
  leader_addr = codes "10.0.0.2:1";
  now = 5 + i * leader_poll_interval;
}

wait_for_leader_lem_example :
    (r : Result Member) × (wait_for_leader 11 5 (pos 200_000_000) polls ≡ some r)
    × ((e : ℕ) × EndsAt (pos 200_000_005) polls 0 e r)
wait_for_leader_lem_example =
    wait_for_leader_lem 10 5 200_000_000 polls (λ i. omega arith) (omega arith)
