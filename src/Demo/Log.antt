-- ===== src/Demo/Log.antt =====
-- examples/three-node/main.go: the commands of the demo's writes, and what a prefix of them leaves.
use honeybadger.Base.{
  ℕ, Bytes, codes, bytes_eq, bytes_eq_iff, has_prefix, ◌≡◌, ◌⊎◌, refl, sym, ap, ◌∙◌, List, [], ◌∷◌,
  ◌++◌, Option, none, some, true, false, arith, inl, inr, Bool-cases, nil_of_append-nil,
}
use mathlib.Core.Path.{ap₂}
use mathlib.Core.List.{head-eq_of_cons-eq, tail-eq_of_cons-eq}
use honeybadger.Badger.{Stored, visible}
use honeybadger.Command.{Command}
use honeybadger.Command.Effect.{written, last_pair, after, after_log}

-- The commands of the demo's writes; the session expires at a given time.
abbrev pub set_user : Command
set_user = record {
  pairs = record { key = codes "user:1"; value = codes "ada"; expires_at_unix = 0 } ∷ [];
  deletes = [];
}

abbrev pub set_session : ℕ → Command
set_session expiry = record {
  pairs =
      record { key = codes "session:xyz"; value = codes "token-123"; expires_at_unix = expiry }
      ∷ [];
  deletes = [];
}

abbrev pub set_users : Command
set_users = record {
  pairs =
      record { key = codes "user:2"; value = codes "grace"; expires_at_unix = 0 }
      ∷ record { key = codes "user:3"; value = codes "edsger"; expires_at_unix = 0 }
      ∷ [];
  deletes = codes "user:1" ∷ [];
}

abbrev pub demo_log : ℕ → List Command
demo_log expiry = set_user ∷ set_session expiry ∷ set_users ∷ []

abbrev pub replayed : List Command → Bytes → Option Stored
replayed cs = after_log cs (λ _. none)

-- The users that the writes leave.
abbrev pub IsUser : Bytes → Bytes → Type 0
IsUser key value =
    ((key ≡ codes "user:2") × (value ≡ codes "grace"))
    ⊎ ((key ≡ codes "user:3") × (value ≡ codes "edsger"))

-- What a key that is one of the demo's holds after the whole log.
replayed_eq :
    (expiry : ℕ) (k key : Bytes) (v w : Stored)
    → bytes_eq k key ≡ true
    → replayed (demo_log expiry) k ≡ some w
    → replayed (demo_log expiry) key ≡ some v
    → (key ≡ k) × (v ≡ w)
replayed_eq expiry k key v w same at h =
    let e = (bytes_eq_iff k key).0 same in
    (sym e, ground (arith, ap (replayed (demo_log expiry)) e))

-- The whole log leaves no other key with the prefix of the users.
pub replayed-IsUser :
    (expiry : ℕ) (key : Bytes) (v : Stored)
    → has_prefix (codes "user:") key ≡ true
    → replayed (demo_log expiry) key ≡ some v
    → IsUser key v.value
unfolding after_log after written last_pair bytes_eq has_prefix
replayed-IsUser expiry key v has h = elim (Bool-cases (bytes_eq (codes "user:2") key)) [
  | inl second ↦
      let (e, same) = replayed_eq expiry (codes "user:2") key v _ second refl h in
      inl (e, ap (λ (x : Stored). x.value) same)
  | inr not_second ↦ elim (Bool-cases (bytes_eq (codes "user:3") key)) [
    | inl third ↦
        let (e, same) = replayed_eq expiry (codes "user:3") key v _ third refl h in
        inr (e, ap (λ (x : Stored). x.value) same)
    | inr not_third ↦ elim (Bool-cases (bytes_eq (codes "user:1") key)) [
      | inl first ↦
          let e = (bytes_eq_iff (codes "user:1") key).0 first in
          let gone : replayed (demo_log expiry) (codes "user:1") ≡ none = refl in
          absurd (ground (arith, ap (replayed (demo_log expiry)) e))
      | inr not_first ↦ elim (Bool-cases (bytes_eq (codes "session:xyz") key)) [
        | inl session ↦
            let e = (bytes_eq_iff (codes "session:xyz") key).0 session in
            let apart : has_prefix (codes "user:") (codes "session:xyz") ≡ false = refl in
            absurd (ground (arith, ap (has_prefix (codes "user:")) e))
        | inr not_session ↦ absurd (ground arith)
      ]
    ]
  ]
]

-- A prefix of the log that leaves user:2 visible is the whole log.
pub whole_of_user :
    (expiry now : ℕ) (v : Stored) (cs later : List Command)
    → cs ++ later ≡ demo_log expiry
    → visible now (replayed cs (codes "user:2")) ≡ some v
    → cs ≡ demo_log expiry
unfolding after_log after written last_pair bytes_eq
whole_of_user expiry now v [] later split seen = absurd (ground (arith, seen))
whole_of_user expiry now v (x ∷ []) later split seen =
    let first : x ≡ set_user = head-eq_of_cons-eq split in
    let nothing : visible now (replayed (set_user ∷ []) (codes "user:2")) ≡ none = refl in
    absurd (ground (arith, ap (λ c. visible now (replayed (c ∷ []) (codes "user:2"))) first))
whole_of_user expiry now v (x ∷ y ∷ []) later split seen =
    let first : x ≡ set_user = head-eq_of_cons-eq split in
    let second : y ≡ set_session expiry = head-eq_of_cons-eq (tail-eq_of_cons-eq split) in
    let nothing : visible now (replayed (set_user ∷ set_session expiry ∷ []) (codes "user:2"))
        ≡ none =
      refl in
    absurd (
      ground
        (arith, ap₂ (λ c d. visible now (replayed (c ∷ d ∷ []) (codes "user:2"))) first second))
whole_of_user expiry now v (x ∷ y ∷ z ∷ cs) later split seen =
    let rest = tail-eq_of_cons-eq (tail-eq_of_cons-eq (tail-eq_of_cons-eq split)) in
    let nothing : cs ≡ [] = nil_of_append-nil cs later rest in
    ap (λ ds. x ∷ y ∷ z ∷ ds) (nothing ∙ sym rest) ∙ split
