-- ===== src/Texts/Distinct.antt =====
-- types.go: the texts tell the values apart.
use honeybadger.Base.{
  ℕ, ◌↔◌, true, false, bytes_eq, bytes_eq_iff, has_prefix, ◌^◌, ◌<◌, Bytes, codes, format_uint,
  format_uint_injective, append_cancel_left, append_cancel_right, ◌≡◌, refl, ap, [], ◌∷◌, ◌++◌,
  arith,
}
use honeybadger.Cluster.{NodeRole, role_none, role_voter, role_nonvoter, role_staging, role_other}
use honeybadger.Status.{
  State, state_follower, state_candidate, state_leader, state_shutdown, state_other,
}
use honeybadger.Texts.{role_string, state_string, not_leader_text, not_leader_error_text}

-- The values of the `uint8` that have no constant.
abbrev pub IsRole : NodeRole → Type 0
IsRole (role_other r) = (3 < r) × (r < 2 ^ 8)
IsRole _ = Unit

abbrev pub IsState : State → Type 0
IsState (state_other s) = (3 < s) × (s < 2 ^ 8)
IsState _ = Unit

-- A number in brackets behind the same word is read back.
bracket_injective :
    (m n : ℕ)
    → m < 2 ^ 8
    → n < 2 ^ 8
    → format_uint m ++ codes ")" ≡ format_uint n ++ codes ")"
    → m ≡ n
bracket_injective m n hm hn same =
    format_uint_injective m n (omega arith) (omega arith)
      (append_cancel_right (format_uint m) (format_uint n) (codes ")") same)

-- Texts that differ, as a comparison finds, are not equal.
apart : {A : Type 0} {a b : Bytes} → a ≡ b → bytes_eq a b ≡ false → A
apart {a = a} {b} same differ = absurd (ground (arith, (bytes_eq_iff a b).1 same))

role_string_injective :
    (a b : NodeRole) → IsRole a → IsRole b → role_string a ≡ role_string b → a ≡ b
unfolding role_string bytes_eq
role_string_injective role_none role_none ha hb same = refl
role_string_injective role_none role_voter ha hb same = apart same refl
role_string_injective role_none role_nonvoter ha hb same = apart same refl
role_string_injective role_none role_staging ha hb same = apart same refl
role_string_injective role_none (role_other n) ha hb same = apart same refl
role_string_injective role_voter role_none ha hb same = apart same refl
role_string_injective role_voter role_voter ha hb same = refl
role_string_injective role_voter role_nonvoter ha hb same = apart same refl
role_string_injective role_voter role_staging ha hb same = apart same refl
role_string_injective role_voter (role_other n) ha hb same = apart same refl
role_string_injective role_nonvoter role_none ha hb same = apart same refl
role_string_injective role_nonvoter role_voter ha hb same = apart same refl
role_string_injective role_nonvoter role_nonvoter ha hb same = refl
role_string_injective role_nonvoter role_staging ha hb same = apart same refl
role_string_injective role_nonvoter (role_other n) ha hb same = apart same refl
role_string_injective role_staging role_none ha hb same = apart same refl
role_string_injective role_staging role_voter ha hb same = apart same refl
role_string_injective role_staging role_nonvoter ha hb same = apart same refl
role_string_injective role_staging role_staging ha hb same = refl
role_string_injective role_staging (role_other n) ha hb same = apart same refl
role_string_injective (role_other n) role_none ha hb same = apart same refl
role_string_injective (role_other n) role_voter ha hb same = apart same refl
role_string_injective (role_other n) role_nonvoter ha hb same = apart same refl
role_string_injective (role_other n) role_staging ha hb same = apart same refl
role_string_injective (role_other m) (role_other n) ha hb same =
    ap role_other
      (bracket_injective m n ha.1 hb.1 (append_cancel_left (codes "NodeRole(") _ _ same))

state_string_injective :
    (a b : State) → IsState a → IsState b → state_string a ≡ state_string b → a ≡ b
unfolding state_string bytes_eq
state_string_injective state_follower state_follower ha hb same = refl
state_string_injective state_follower state_candidate ha hb same = apart same refl
state_string_injective state_follower state_leader ha hb same = apart same refl
state_string_injective state_follower state_shutdown ha hb same = apart same refl
state_string_injective state_follower (state_other n) ha hb same = apart same refl
state_string_injective state_candidate state_follower ha hb same = apart same refl
state_string_injective state_candidate state_candidate ha hb same = refl
state_string_injective state_candidate state_leader ha hb same = apart same refl
state_string_injective state_candidate state_shutdown ha hb same = apart same refl
state_string_injective state_candidate (state_other n) ha hb same = apart same refl
state_string_injective state_leader state_follower ha hb same = apart same refl
state_string_injective state_leader state_candidate ha hb same = apart same refl
state_string_injective state_leader state_leader ha hb same = refl
state_string_injective state_leader state_shutdown ha hb same = apart same refl
state_string_injective state_leader (state_other n) ha hb same = apart same refl
state_string_injective state_shutdown state_follower ha hb same = apart same refl
state_string_injective state_shutdown state_candidate ha hb same = apart same refl
state_string_injective state_shutdown state_leader ha hb same = apart same refl
state_string_injective state_shutdown state_shutdown ha hb same = refl
state_string_injective state_shutdown (state_other n) ha hb same = apart same refl
state_string_injective (state_other n) state_follower ha hb same = apart same refl
state_string_injective (state_other n) state_candidate ha hb same = apart same refl
state_string_injective (state_other n) state_leader ha hb same = apart same refl
state_string_injective (state_other n) state_shutdown ha hb same = apart same refl
state_string_injective (state_other m) (state_other n) ha hb same =
    ap state_other (bracket_injective m n ha.1 hb.1 (append_cancel_left (codes "State(") _ _ same))

not_leader_text-prefix :
    (leader_id leader_addr : Bytes)
    → has_prefix not_leader_text (not_leader_error_text leader_id leader_addr) ≡ true
unfolding not_leader_error_text has_prefix
not_leader_text-prefix [] [] = refl
not_leader_text-prefix [] (a ∷ addr) = refl
not_leader_text-prefix (i ∷ id) [] = refl
not_leader_text-prefix (i ∷ id) (a ∷ addr) = refl

-- Two values of NodeRole have the same text exactly where they are equal, two values of State
-- likewise, values without a constant included; and the text of a NotLeaderError begins with that
-- of ErrNotLeader, whether the leader's ID and address are known or not.
pub texts_distinct :
    (r r' : NodeRole) (s s' : State) (leader_id leader_addr : Bytes)
    → IsRole r
    → IsRole r'
    → IsState s
    → IsState s'
    → ((role_string r ≡ role_string r') ↔ (r ≡ r'))
      × ((state_string s ≡ state_string s') ↔ (s ≡ s'))
      × (has_prefix not_leader_text (not_leader_error_text leader_id leader_addr) ≡ true)
texts_distinct r r' s s' leader_id leader_addr hr hr' hs hs' = (
  (role_string_injective r r' hr hr', ap role_string),
  (state_string_injective s s' hs hs', ap state_string),
  not_leader_text-prefix leader_id leader_addr,
)
