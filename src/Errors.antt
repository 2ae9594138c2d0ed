-- ===== src/Errors.antt =====
-- types.go: the sentinel errors, `NotLeaderError`, and Go's wrapped errors as chains.
use honeybadger.Base.{ℕ, ◌+◌, String, Bytes, Bool, true, false, ◌==◌, ◌||◌, Option, none, some}
use honeybadger.Base.{List, [], ◌∷◌, ◌≡◌, refl, ◌⊎◌, inl, inr}

-- The package's `errors.New` variables.
pub data Sentinel : Type 0 where
  key_not_found not_leader closed no_leader invalid_argument : Sentinel

-- The errors of Badger, Raft and the operating system, of which the code tells three apart:
-- `badger.ErrKeyNotFound`, `raft.ErrNotLeader` and `raft.ErrCantBootstrap`.
pub data Foreign : Type 0 where
  badger_key_not_found raft_not_leader raft_cant_bootstrap : Foreign
  other : ℕ → Foreign

-- An error value with what `Unwrap` reaches. `wrap` and `wrap_at` are `fmt.Errorf` with `%w`, the
-- second with a log index or a position in the text; `plain` is an unnamed `errors.New`; `join` is
-- `errors.Join` of two or more errors, `join_last` of one.
pub data Error : Type 0 where
  sentinel : Sentinel → Error
  not_leader_error : Bytes → Bytes → Error
  foreign : Foreign → Error
  plain : String → Error
  wrap : String → Error → Error
  wrap_at : String → ℕ → Error → Error
  join_last : Error → Error
  join : Error → Error → Error

-- A call that returns a value and an `error`; a bare `error` is a `Result` of `Unit`.
pub data Result {ℓ} (A : Type ℓ) : Type ℓ where
  ok : A → Result A
  err : Error → Result A

-- `err == nil`
abbrev pub is_ok {ℓ} : {A : Type ℓ} → Result A → Bool
is_ok (ok a) = true
is_ok (err e) = false

-- `if err != nil { return err }` and the rest of a body.
infixl 5 ◌>>=◌ ◌>>◌
abbrev pub ◌>>=◌ {ℓ κ} : {A : Type ℓ} {B : Type κ} → Result A → (A → Result B) → Result B
m >>= rest = elim m [ err e ↦ err e | ok a ↦ rest a ]

abbrev pub ◌>>◌ {ℓ} : {B : Type ℓ} → Result (Unit {0}) → Result B → Result B
check >> rest = elim check [ err e ↦ err e | ok _ ↦ rest ]

-- A body that returns without an error has passed its first call.
pub bind-eq-ok {ℓ κ} :
    {A : Type ℓ} {B : Type κ} (m : Result A) (rest : A → Result B) {b : B}
    → (m >>= rest) ≡ ok b
    → (a : A) × (m ≡ ok a) × (rest a ≡ ok b)
bind-eq-ok (err e) rest h = cc
bind-eq-ok (ok a) rest h = (a, refl, h)

pub Result-cases {ℓ} :
    {A : Type ℓ} (r : Result A) → ((a : A) × (r ≡ ok a)) ⊎ ((e : Error) × (r ≡ err e))
Result-cases (ok a) = inl (a, refl)
Result-cases (err e) = inr (e, refl)

-- A returned `nil` error.
abbrev pub done : Result (Unit {0})
done = ok tt

abbrev pub err_closed : Error
err_closed = sentinel closed

-- `fmt.Errorf("%w: text", ErrInvalidArgument)`
abbrev pub invalid : String → Error
invalid text = wrap text (sentinel invalid_argument)

sentinel_code : Sentinel → ℕ
sentinel_code key_not_found = 0
sentinel_code not_leader = 1
sentinel_code closed = 2
sentinel_code no_leader = 3
sentinel_code invalid_argument = 4

foreign_code : Foreign → ℕ
foreign_code badger_key_not_found = 0
foreign_code raft_not_leader = 1
foreign_code raft_cant_bootstrap = 2
foreign_code (other n) = n + 3

-- The sentinel that a `*NotLeaderError` unwraps to.
abbrev pub unwrap : Error → Option Error
unwrap (not_leader_error leader_id leader_addr) = some (sentinel not_leader)
unwrap (wrap text e) = some e
unwrap (wrap_at text n e) = some e
unwrap _ = none

-- `errors.Is(err, target)` for a sentinel of the package: the chain of `Unwrap` meets it.
unfoldable pub errors_is : Error → Sentinel → Bool
unfolding sentinel_code
errors_is (sentinel s) target = sentinel_code s == sentinel_code target
errors_is (not_leader_error leader_id leader_addr) target =
    sentinel_code not_leader == sentinel_code target
errors_is (foreign f) target = false
errors_is (plain text) target = false
errors_is (wrap text e) target = errors_is e target
errors_is (wrap_at text n e) target = errors_is e target
errors_is (join_last e) target = errors_is e target
errors_is (join e rest) target = errors_is e target || errors_is rest target

-- `errors.Is(err, target)` for an error value of Badger or Raft.
unfoldable pub errors_is_foreign : Error → Foreign → Bool
unfolding foreign_code
errors_is_foreign (sentinel s) target = false
errors_is_foreign (not_leader_error leader_id leader_addr) target = false
errors_is_foreign (foreign f) target = foreign_code f == foreign_code target
errors_is_foreign (plain text) target = false
errors_is_foreign (wrap text e) target = errors_is_foreign e target
errors_is_foreign (wrap_at text n e) target = errors_is_foreign e target
errors_is_foreign (join_last e) target = errors_is_foreign e target
errors_is_foreign (join e rest) target = errors_is_foreign e target || errors_is_foreign rest target

-- `errors.Join`: nil errors are dropped, and nil comes back if none is left.
unfoldable pub errors_join : List (Result (Unit {0})) → Result (Unit {0})
errors_join [] = done
errors_join (ok _ ∷ rest) = errors_join rest
errors_join (err e ∷ rest) = elim (errors_join rest) [
  | ok _ ↦ err (join_last e)
  | err joined ↦ err (join e joined)
]
