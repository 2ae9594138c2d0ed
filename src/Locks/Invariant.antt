-- ===== src/Locks/Invariant.antt =====
-- What holds in every state that the threads reach: mutual exclusion, live pins, and the history.
use honeybadger.Base.{
  put, ℕ, ◌==◌, ==_iff, ◌≡◌, refl, ap, true, false, Option, some, List, ◌∷◌, arith, inl, inr,
  Bool-cases,
}
use honeybadger.Errors.{done}
use honeybadger.Badger.{Badger}
use honeybadger.Node.{Node, run_on}
use honeybadger.Locks.{
  Use, Pc, idle, passed, shared, pinned, returning, swapping, swap_closed, replacing,
  replace_closed, closing, close_closed, unlocking, Event, used, System, writes, holds, NoWriter,
  swap_first, replace_first,
}
use honeybadger.Locks.Atomicity.{Serial}

module _ {B : Badger} {A : Type 0} where
  -- Two threads are in conflict only if they are one.
  abbrev pub IsExclusive : (ℕ → Pc B A) → Type 0
  IsExclusive pc = (i j : ℕ) → writes (pc i) ≡ true → holds (pc j) ≡ true → i ≡ j

  -- A pinned database is the live one.
  abbrev pub IsLive : ℕ → Option B.Db → (ℕ → Pc B A) → Type 0
  IsLive generation store pc =
      (i : ℕ) (fn : Use B A) (g : ℕ)
      → pc i ≡ pinned fn g
      → (g ≡ generation) × ((d : B.Db) × (store ≡ some d))

  -- How far a section under the exclusive lock has taken the node from where it found it.
  abbrev pub Link : Node B → B.World → Pc B A → Node B → B.World → Type 0
  Link n₀ w₀ swapping n w = (n ≡ n₀) × (w ≡ w₀)
  Link n₀ w₀ swap_closed n w = swap_first B n₀ w₀ ≡ (n, w)
  Link n₀ w₀ (replacing snap) n w = (n ≡ n₀) × (w ≡ w₀)
  Link n₀ w₀ (replace_closed snap) n w = replace_first B n₀ w₀ ≡ (done, n, w)
  Link n₀ w₀ closing n w = (n ≡ n₀) × (w ≡ w₀)
  Link n₀ w₀ (close_closed r) n w =
      (d : B.Db) × ((n₀.store ≡ some d) × (B.close d w₀ ≡ (r, w)) × (n ≡ n₀))
  Link n₀ w₀ unlocking n w = (n ≡ n₀) × (w ≡ w₀)
  Link n₀ w₀ _ n w = Unit

  -- `settled` is the node as the history leaves it.
  pub record IsSound (n₀ : Node B) (w₀ : B.World) (s : System B A) : Type 0 where
    pub exclusive : IsExclusive s.pc
    pub live : IsLive s.generation s.node.store s.pc
    pub fresh : s.stale_use ≡ false
    pub settled : Node B
    pub settled_world : B.World
    pub serial : Serial n₀ w₀ s.history settled settled_world
    pub flag : settled.closed ≡ s.node.closed
    pub linked : (i : ℕ) → Link settled settled_world (s.pc i) s.node s.world
    pub quiet : NoWriter s → (s.node ≡ settled) × (s.world ≡ settled_world)

  abbrev pub OthersFree : (ℕ → Pc B A) → ℕ → Type 0
  OthersFree pc i = (j : ℕ) → (i == j) ≡ false → holds (pc j) ≡ false

  pub not_writes_of_free : (p : Pc B A) → holds p ≡ false → writes p ≡ false
  not_writes_of_free idle h = refl
  not_writes_of_free (passed fn) h = refl
  not_writes_of_free (shared fn) h = refl
  not_writes_of_free (pinned fn g) h = refl
  not_writes_of_free (returning r) h = refl
  not_writes_of_free swapping h = cc
  not_writes_of_free swap_closed h = cc
  not_writes_of_free (replacing snap) h = cc
  not_writes_of_free (replace_closed snap) h = cc
  not_writes_of_free closing h = cc
  not_writes_of_free (close_closed r) h = cc
  not_writes_of_free unlocking h = cc

  Link-idle :
      (n₀ : Node B) (w₀ : B.World) (p : Pc B A) (n : Node B) (w : B.World)
      → writes p ≡ false
      → Link n₀ w₀ p n w
  Link-idle n₀ w₀ idle n w h = tt
  Link-idle n₀ w₀ (passed fn) n w h = tt
  Link-idle n₀ w₀ (shared fn) n w h = tt
  Link-idle n₀ w₀ (pinned fn g) n w h = tt
  Link-idle n₀ w₀ (returning r) n w h = tt
  Link-idle n₀ w₀ swapping n w h = cc
  Link-idle n₀ w₀ swap_closed n w h = cc
  Link-idle n₀ w₀ (replacing snap) n w h = cc
  Link-idle n₀ w₀ (replace_closed snap) n w h = cc
  Link-idle n₀ w₀ closing n w h = cc
  Link-idle n₀ w₀ (close_closed r) n w h = cc
  Link-idle n₀ w₀ unlocking n w h = cc

  -- A thread that is alone with the lock may change all that the lock guards.
  module _ {n₀ : Node B} {w₀ : B.World} {s : System B A} (sound : IsSound n₀ w₀ s) (i : ℕ) where
    pub others_free : writes (s.pc i) ≡ true → OthersFree s.pc i
    others_free w j apart = elim (Bool-cases (holds (s.pc j))) [
      | inr free ↦ free
      | inl held ↦ ground (arith, sound.exclusive i j w held)
    ]

    pub alone-IsSound :
        (p : Pc B A) (n : Node B) (w : B.World) (g : ℕ) (events : List (Event B A)) (m : Node B)
        (v : B.World)
        → OthersFree s.pc i
        → writes p ≡ true
        → Serial n₀ w₀ events m v
        → m.closed ≡ n.closed
        → Link m v p n w
        → IsSound n₀ w₀ (record {
          node = n;
          world = w;
          generation = g;
          stale_use = s.stale_use;
          pc = put s.pc i p;
          history = events;
        })
    alone-IsSound p n w g events m v free writer serial flag link = record {
      exclusive = λ a b wa hb. ground (arith, free a, free b, not_writes_of_free (s.pc a));
      live = λ a fn g' at. absurd (ground (arith, free a));
      fresh = sound.fresh;
      settled = m;
      settled_world = v;
      serial = serial;
      flag = flag;
      linked = λ a. elim (Bool-cases (i == a)) [
        | inl mine ↦ rw mine link
        | inr apart ↦
            rw apart (Link-idle m v (s.pc a) n w (not_writes_of_free (s.pc a) (free a apart)))
      ];
      quiet = λ none_writes. absurd (ground (arith, none_writes i));
    }

    pub no_writer : holds (s.pc i) ≡ true → writes (s.pc i) ≡ false → NoWriter s
    no_writer held reads j = elim (Bool-cases (writes (s.pc j))) [
      | inr idles ↦ idles
      | inl w ↦
          let same : j ≡ i = sound.exclusive j i w held in
          absurd (ground (arith, ap (λ k. writes (s.pc k)) same))
    ]

    -- A thread that only reads may move on while the node stays as it is.
    pub reader-IsSound :
        (p : Pc B A) (events : List (Event B A))
        → writes p ≡ false
        → (holds p ≡ true → NoWriter s)
        → ((fn : Use B A) (g : ℕ)
            → p ≡ pinned fn g
            → (g ≡ s.generation) × ((d : B.Db) × (s.node.store ≡ some d)))
        → Serial n₀ w₀ events sound.settled sound.settled_world
        → (((j : ℕ) → writes (put s.pc i p j) ≡ false)
            → (s.node ≡ sound.settled) × (s.world ≡ sound.settled_world))
        → IsSound n₀ w₀ (record s { pc = put s.pc i p; history = events })
    reader-IsSound p events reads granted pins serial quiet = record {
      exclusive = λ a b wa hb. elim (Bool-cases (i == a)) [
        | inl mine ↦ absurd (ground arith)
        | inr other ↦ elim (Bool-cases (i == b)) [
          | inr another ↦ sound.exclusive a b (ground arith) (ground arith)
          | inl here ↦
              let held : holds p ≡ true = ground arith in absurd (ground (arith, granted held a))
        ]
      ];
      live = λ a fn g at. elim (Bool-cases (i == a)) [
        | inl mine ↦ pins fn g (ground arith)
        | inr other ↦ sound.live a fn g (ground arith)
      ];
      fresh = sound.fresh;
      settled = sound.settled;
      settled_world = sound.settled_world;
      serial = serial;
      flag = sound.flag;
      linked = λ a. elim (Bool-cases (i == a)) [
        | inl mine ↦ rw mine (Link-idle sound.settled sound.settled_world p s.node s.world reads)
        | inr other ↦ rw other (sound.linked a)
      ];
      quiet = quiet;
    }

    -- Where the thread was no writer before, the threads are as quiet as they were.
    pub still_quiet :
        (p : Pc B A)
        → writes (s.pc i) ≡ false
        → ((j : ℕ) → writes (put s.pc i p j) ≡ false)
        → (s.node ≡ sound.settled) × (s.world ≡ sound.settled_world)
    still_quiet p reads none_writes = sound.quiet (λ j. elim (Bool-cases (i == j)) [
      | inl mine ↦
          let same : i ≡ j = (==_iff i j).0 mine in ground (arith, ap (λ k. writes (s.pc k)) same)
      | inr other ↦ ground (arith, none_writes j)
    ])

    -- A call runs on the live store, which no writer holds.
    pub call-IsSound :
        (fn : Use B A) (d : B.Db)
        → NoWriter s
        → s.node.store ≡ some d
        → IsSound n₀ w₀ (record s {
          node = (run_on fn d s.node).1;
          pc = put s.pc i (returning (fn d).0);
          history = used fn (fn d).0 ∷ s.history;
        })
    call-IsSound fn d none_writes stored =
        let (same, same_world) = sound.quiet none_writes in
        record {
          exclusive = λ a b wa hb. absurd (ground (arith, none_writes a));
          live = λ a fn' g at. elim (Bool-cases (i == a)) [
            | inl mine ↦ absurd (ground arith)
            | inr other ↦ ((sound.live a fn' g (ground arith)).0, (_, refl))
          ];
          fresh = sound.fresh;
          settled = (run_on fn d s.node).1;
          settled_world = s.world;
          serial =
              (sound.settled, (sound.settled_world, (sound.serial, (ground arith, same_world))));
          flag = refl;
          linked = λ a. elim (Bool-cases (i == a)) [
            | inl mine ↦ rw mine tt
            | inr other ↦ rw other (Link-idle _ _ (s.pc a) _ _ (none_writes a))
          ];
          quiet = λ _. (refl, refl);
        }
