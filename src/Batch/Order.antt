-- ===== src/Batch/Order.antt =====
-- `Batch` puts all sets before all deletes. Since no key stands in it twice, the effect is that of
-- the mutations in the order of the call.
use honeybadger.Base.{
  ℕ, suc, Bytes, bytes_eq, bytes_eq_iff, ◌≡◌, refl, ◌∙◌, ◌⊎◌, false, ◌||◌, some, List, [], ◌∷◌,
  ◌++◌, arith, if◌then◌else◌, inl, inr,
}
use honeybadger.Errors.{Result, ok, err, invalid, Result-cases, ◌>>=◌}
use honeybadger.Command.{CommandPair, Command}
use honeybadger.Command.Effect.{
  contains, stored_pair, last_pair, written, after, after_log, after_log-cong,
}
use honeybadger.Badger.{Contents}
use honeybadger.Options.{Mutation, MutKind, mut_set, mut_delete, mut_other}
use honeybadger.Options.{resolve_set_options}
use honeybadger.Batch.{set_command, delete_command, batch_loop, batch_command}

-- The call that does one mutation alone, up to `db.apply`: `SetBytes` or `DeleteBytes`.
abbrev pub single : ℕ → Mutation → Result Command
single now m = elim m.kind [
  | mut_set ↦ set_command now m.key m.value m.opts
  | mut_delete ↦ delete_command m.key
  | mut_other n ↦ err (invalid "no such call")
]

-- The commands of the calls that do the mutations one by one, if all are accepted.
abbrev pub singles : (ℕ → ℕ) → ℕ → List Mutation → Result (List Command)
singles now i [] = ok []
singles now i (m ∷ ms) = do c ← single (now i) m; cs ← singles now (suc i) ms; ok (c ∷ cs)

contains-append :
    (k x : Bytes) (xs : List Bytes) → contains k (xs ++ (x ∷ [])) ≡ (contains k xs || bytes_eq x k)
contains-append k x [] = ground arith
contains-append k x (y ∷ ys) = ground (arith, contains-append k x ys)

last_pair-append :
    (p : CommandPair) (ps : List CommandPair) (k : Bytes)
    → last_pair (ps ++ (p ∷ [])) k
      ≡ (if bytes_eq p.key k then some (stored_pair p) else last_pair ps k)
unfolding last_pair
last_pair-append p [] k = ground arith
last_pair-append p (q ∷ qs) k = ground (arith, last_pair-append p qs k)

-- A set of a key that is not deleted yet may as well come after the deletes.
after-set_last :
    (p : CommandPair) (pairs : List CommandPair) (deletes : List Bytes) (m : Contents) (k : Bytes)
    → contains p.key deletes ≡ false
    → after (record { pairs = pairs ++ (p ∷ []); deletes = deletes }) m k
      ≡ after
          (record { pairs = p ∷ []; deletes = [] })
          (after (record { pairs = pairs; deletes = deletes }) m)
          k
unfolding after written last_pair
after-set_last p pairs deletes m k absent =
    ground (arith, last_pair-append p pairs k, bytes_eq_iff p.key k)

after-delete_last :
    (x : Bytes) (pairs : List CommandPair) (deletes : List Bytes) (m : Contents) (k : Bytes)
    → after (record { pairs = pairs; deletes = deletes ++ (x ∷ []) }) m k
      ≡ after
          (record { pairs = []; deletes = x ∷ [] })
          (after (record { pairs = pairs; deletes = deletes }) m)
          k
unfolding after written last_pair
after-delete_last x pairs deletes m k = ground (arith, contains-append k x deletes)

pub MutKind-cases :
    (kind : MutKind) → (kind ≡ mut_set) ⊎ ((kind ≡ mut_delete) ⊎ ((n : ℕ) × (kind ≡ mut_other n)))
MutKind-cases mut_set = inl refl
MutKind-cases mut_delete = inr (inl refl)
MutKind-cases (mut_other n) = inr (inr (n, refl))

module _ (now : ℕ → ℕ) (i : ℕ) (x : Mutation) (ms : List Mutation) {c : Command} where
  -- What the loop has checked of a mutation that it lets pass, and the command of that mutation.
  batch_loop-cons :
      (seen : List Bytes) (pairs : List CommandPair) (deletes : List Bytes)
      → batch_loop now i (x ∷ ms) seen pairs deletes ≡ ok c
      → (contains x.key seen ≡ false)
        × (((e : ℕ) × (single (now i) x
                ≡ ok (record {
                  pairs = record { key = x.key; value = x.value; expires_at_unix = e } ∷ [];
                  deletes = [];
                }))
              × (batch_loop now
                    (suc i)
                    ms
                    (x.key ∷ seen)
                    (pairs ++ (record { key = x.key; value = x.value; expires_at_unix = e } ∷ []))
                    deletes
                  ≡ ok c))
            ⊎ ((single (now i) x ≡ ok (record { pairs = []; deletes = x.key ∷ [] }))
                × (batch_loop now (suc i) ms (x.key ∷ seen) pairs (deletes ++ (x.key ∷ []))
                    ≡ ok c)))
  unfolding batch_loop set_command delete_command
  batch_loop-cons seen pairs deletes h = elim (MutKind-cases x.kind) [
    | inl set ↦ elim (Result-cases (resolve_set_options (now i) x.opts)) [
      | inl (e, resolved) ↦ (ground arith, inl (e, ground arith, ground arith))
      | inr (e, failed) ↦ absurd (ground arith)
    ]
    | inr (inl del) ↦ (ground arith, inr (ground arith, ground arith))
    | inr (inr (n, bad)) ↦ absurd (ground arith)
  ]

after_nothing : (m : Contents) (k : Bytes) → after (record { pairs = []; deletes = [] }) m k ≡ m k
unfolding after written last_pair
after_nothing m k = refl

batch_loop-order :
    (now : ℕ → ℕ) (i : ℕ) (ms : List Mutation) (seen : List Bytes) (pairs : List CommandPair)
    (deletes : List Bytes) {c : Command}
    → batch_loop now i ms seen pairs deletes ≡ ok c
    → ((j : Bytes) → contains j seen ≡ false → contains j deletes ≡ false)
    → (cs : List Command) × (singles now i ms ≡ ok cs)
      × ((m : Contents) (k : Bytes)
          → after c m k ≡ after_log cs (after (record { pairs = pairs; deletes = deletes }) m) k)
unfolding batch_loop after_log
batch_loop-order now i [] seen pairs deletes h inv = ([], refl, λ m k. ground arith)
batch_loop-order now i (x ∷ ms) seen pairs deletes {c} h inv =
    let (fresh, step) = batch_loop-cons now i x ms seen pairs deletes h in
    elim step [
      | inl (e, alone, rest) ↦
          let p : CommandPair = record { key = x.key; value = x.value; expires_at_unix = e } in
          let (cs, all, same) =
            batch_loop-order now (suc i) ms (x.key ∷ seen) (pairs ++ (p ∷ [])) deletes rest
              (λ j h'. ground (arith, inv j)) in
          (
            record { pairs = p ∷ []; deletes = [] } ∷ cs,
            rw (alone, all),
            λ m k.
                same m k
                ∙ after_log-cong cs _ _ k (after-set_last p pairs deletes m k (inv x.key fresh)),
          )
      | inr (alone, rest) ↦
          let (cs, all, same) =
            batch_loop-order now (suc i) ms (x.key ∷ seen) pairs (deletes ++ (x.key ∷ [])) rest
              (λ j h'. ground (arith, inv j, contains-append j x.key deletes)) in
          (
            record { pairs = []; deletes = x.key ∷ [] } ∷ cs,
            rw (alone, all),
            λ m k. same m k ∙ after_log-cong cs _ _ k (after-delete_last x.key pairs deletes m k),
          )
    ]

-- A batch that is accepted has the effect of its mutations one after another: each of the single
-- calls is accepted too, and their commands, in the order of the call, leave under every key what
-- the one command of the batch leaves there, whatever was stored before.
pub batch-order :
    (now : ℕ → ℕ) (ms : List Mutation) {c : Command}
    → batch_command now ms ≡ ok c
    → (cs : List Command) × (singles now 0 ms ≡ ok cs)
      × ((m : Contents) (k : Bytes) → after c m k ≡ after_log cs m k)
unfolding batch_command
batch-order now ms h =
    let (cs, all, same) = batch_loop-order now 0 ms [] [] [] h (λ j _. refl) in
    (cs, all, λ m k. same m k ∙ after_log-cong cs _ _ k (after_nothing m k))
