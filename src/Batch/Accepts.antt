-- ===== src/Batch/Accepts.antt =====
-- Which batches the validation lets through, and what it returns for the others.
use honeybadger.Base.{
  ℕ, suc, Bytes, bytes_eq, bytes_eq_iff, ◌≡◌, refl, Bool, true, not, ◌&&◌, List, [], ◌∷◌, ◌++◌,
  arith, inl, inr,
}
use honeybadger.Errors.{Error, err, is_ok, errors_is, invalid_argument, Result-cases}
use honeybadger.Command.{CommandPair}
use honeybadger.Command.Effect.{contains}
use honeybadger.Options.{Mutation, SetOption, resolve_set_options}
use honeybadger.Options.Laws.{resolve_set_options_lem}
use honeybadger.Batch.{set_command, delete_command, batch_loop, batch_command}
use honeybadger.Batch.Order.{single, MutKind-cases}

abbrev pub keys : List Mutation → List Bytes
keys [] = []
keys (m ∷ ms) = m.key ∷ keys ms

-- No key stands twice.
abbrev pub distinct : List Bytes → Bool
distinct [] = true
distinct (k ∷ ks) = not (contains k ks) && distinct ks

-- Each mutation alone would be accepted, at its reading of the clock.
abbrev pub each_accepted : (ℕ → ℕ) → ℕ → List Mutation → Bool
each_accepted now i [] = true
each_accepted now i (m ∷ ms) = is_ok (single (now i) m) && each_accepted now (suc i) ms

-- None of the keys is among those seen.
abbrev fresh : List Bytes → List Bytes → Bool
fresh seen [] = true
fresh seen (k ∷ ks) = not (contains k seen) && fresh seen ks

bytes_eq_comm : (a b : Bytes) → bytes_eq a b ≡ bytes_eq b a
bytes_eq_comm a b = ground (arith, bytes_eq_iff a b, bytes_eq_iff b a)

fresh-cons :
    (x : Bytes) (seen ks : List Bytes)
    → fresh (x ∷ seen) ks ≡ (fresh seen ks && not (contains x ks))
fresh-cons x seen [] = refl
fresh-cons x seen (k ∷ ks) = ground (arith, fresh-cons x seen ks, bytes_eq_comm x k)

fresh-nil : (ks : List Bytes) → fresh [] ks ≡ true
fresh-nil [] = refl
fresh-nil (k ∷ ks) = fresh-nil ks

is_ok-batch_loop :
    (now : ℕ → ℕ) (i : ℕ) (ms : List Mutation) (seen : List Bytes) (pairs : List CommandPair)
    (deletes : List Bytes)
    → is_ok (batch_loop now i ms seen pairs deletes)
      ≡ (each_accepted now i ms && (distinct (keys ms) && fresh seen (keys ms)))
unfolding batch_loop set_command delete_command
is_ok-batch_loop now i [] seen pairs deletes = refl
is_ok-batch_loop now i (x ∷ ms) seen pairs deletes = elim (MutKind-cases x.kind) [
  | inl set ↦ elim (Result-cases (resolve_set_options (now i) x.opts)) [
    | inl (e, resolved) ↦
        let p : CommandPair = record { key = x.key; value = x.value; expires_at_unix = e } in
        ground (
          arith,
          is_ok-batch_loop now (suc i) ms (x.key ∷ seen) (pairs ++ (p ∷ [])) deletes,
          fresh-cons x.key seen (keys ms),
        )
    | inr (e, failed) ↦ ground arith
  ]
  | inr (inl del) ↦ ground (
    arith,
    is_ok-batch_loop now (suc i) ms (x.key ∷ seen) pairs (deletes ++ (x.key ∷ [])),
    fresh-cons x.key seen (keys ms),
  )
  | inr (inr (n, bad)) ↦ ground arith
]

-- Batch accepts its mutations exactly where each would be accepted as a call of its own and no
-- key stands twice.
pub batch_accepts :
    (now : ℕ → ℕ) (ms : List Mutation)
    → is_ok (batch_command now ms) ≡ (each_accepted now 0 ms && distinct (keys ms))
unfolding batch_command
batch_accepts now ms = ground (arith, is_ok-batch_loop now 0 ms [] [] [], fresh-nil (keys ms))

resolve_refuses :
    (now : ℕ) (opts : List SetOption) (e : Error)
    → resolve_set_options now opts ≡ err e
    → errors_is e invalid_argument ≡ true
unfolding errors_is
resolve_refuses now opts e h = ground (arith, resolve_set_options_lem now opts)

batch_loop_refuses :
    (now : ℕ → ℕ) (i : ℕ) (ms : List Mutation) (seen : List Bytes) (pairs : List CommandPair)
    (deletes : List Bytes) (e : Error)
    → batch_loop now i ms seen pairs deletes ≡ err e
    → errors_is e invalid_argument ≡ true
unfolding batch_loop errors_is
batch_loop_refuses now i [] seen pairs deletes e h = cc
batch_loop_refuses now i (x ∷ ms) seen pairs deletes e h = elim (MutKind-cases x.kind) [
  | inl set ↦ elim (Result-cases (resolve_set_options (now i) x.opts)) [
    | inl (t, resolved) ↦
        let p : CommandPair = record { key = x.key; value = x.value; expires_at_unix = t } in
        ground
          (arith, batch_loop_refuses now (suc i) ms (x.key ∷ seen) (pairs ++ (p ∷ [])) deletes e)
    | inr (e', failed) ↦ ground (arith, resolve_refuses (now i) x.opts e')
  ]
  | inr (inl del) ↦
      ground
        (arith, batch_loop_refuses now (suc i) ms (x.key ∷ seen) pairs (deletes ++ (x.key ∷ [])) e)
  | inr (inr (n, bad)) ↦ ground arith
]

-- Every refusal of Batch's validation, of SetBytes and of DeleteBytes is an ErrInvalidArgument.
pub refusals_invalid :
    ((now : ℕ → ℕ) (ms : List Mutation) (e : Error)
      → batch_command now ms ≡ err e
      → errors_is e invalid_argument ≡ true)
    × ((now : ℕ) (key value : Bytes) (opts : List SetOption) (e : Error)
        → set_command now key value opts ≡ err e
        → errors_is e invalid_argument ≡ true)
    × ((key : Bytes) (e : Error) → delete_command key ≡ err e → errors_is e invalid_argument ≡ true)
unfolding batch_command set_command delete_command errors_is
refusals_invalid = (
  λ now ms e h. batch_loop_refuses now 0 ms [] [] [] e h,
  λ now key value opts e h. ground (arith, resolve_refuses now opts e),
  λ key e h. ground arith,
)
