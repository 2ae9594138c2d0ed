-- ===== src/Base/Order.antt =====
-- Prefixes and the order of keys: the keys with a prefix lie together, from the prefix on.
use mathlib.Core.Path.{◌≡◌, refl, ap}
use mathlib.Core.Bool.{true, false}
use mathlib.Core.Logic.{inl, inr}
use mathlib.Core.List.{List, [], ◌∷◌, map}
use native.Mathlib.Omega.{arith}
use honeybadger.Base.Tests.{Bool-cases, if◌then◌else◌}
use honeybadger.Base.Lists.{keep, skip_while}
use honeybadger.Base.ByteStrings.{Bytes, has_prefix, bytes_lt, IsBelow, IsAscending}

pub bytes_lt_irrefl : (k : Bytes) → bytes_lt k k ≡ false
unfolding bytes_lt
bytes_lt_irrefl [] = refl
bytes_lt_irrefl (x ∷ xs) = ground (arith, bytes_lt_irrefl xs)

pub not_prefix_of_lt : (k p : Bytes) → bytes_lt k p ≡ true → has_prefix p k ≡ false
unfolding bytes_lt has_prefix
not_prefix_of_lt [] [] h = cc
not_prefix_of_lt [] (q ∷ ps) h = refl
not_prefix_of_lt (x ∷ xs) [] h = cc
not_prefix_of_lt (x ∷ xs) (q ∷ ps) h = ground (arith, not_prefix_of_lt xs ps)

pub not_lt_mono :
    (k p j : Bytes) → bytes_lt k p ≡ false → bytes_lt k j ≡ true → bytes_lt j p ≡ false
unfolding bytes_lt
not_lt_mono k [] [] h lt = refl
not_lt_mono k [] (y ∷ ys) h lt = refl
not_lt_mono [] (q ∷ ps) j h lt = cc
not_lt_mono (x ∷ xs) (q ∷ ps) [] h lt = cc
not_lt_mono (x ∷ xs) (q ∷ ps) (y ∷ ys) h lt = ground (arith, not_lt_mono xs ps ys)

pub not_prefix_after :
    (p k j : Bytes)
    → bytes_lt k p ≡ false
    → has_prefix p k ≡ false
    → bytes_lt k j ≡ true
    → has_prefix p j ≡ false
unfolding bytes_lt has_prefix
not_prefix_after [] [] j h np lt = cc
not_prefix_after [] (x ∷ xs) j h np lt = cc
not_prefix_after (q ∷ ps) [] j h np lt = cc
not_prefix_after (q ∷ ps) (x ∷ xs) [] h np lt = refl
not_prefix_after (q ∷ ps) (x ∷ xs) (y ∷ ys) h np lt = ground (arith, not_prefix_after ps xs ys)

module _ {A : Type 0} (key : A → Bytes) (p : Bytes) where
  -- The elements up to the first without the prefix.
  unfoldable pub with_prefix : List A → List A
  with_prefix [] = []
  with_prefix (x ∷ xs) = let rest = with_prefix xs in if has_prefix p (key x) then x ∷ rest else []

  keep_after :
      (k : Bytes) (xs : List A)
      → bytes_lt k p ≡ false
      → has_prefix p k ≡ false
      → IsBelow k (map key xs)
      → keep (λ x. has_prefix p (key x)) xs ≡ []
  keep_after k [] h np below = refl
  keep_after k (x ∷ xs) h np (lt, below) =
      ground (arith, not_prefix_after p k (key x) h np lt, keep_after k xs h np below)

  keep-from :
      (k : Bytes) (xs : List A)
      → bytes_lt k p ≡ false
      → IsBelow k (map key xs)
      → IsAscending (map key xs)
      → with_prefix xs ≡ keep (λ x. has_prefix p (key x)) xs
  unfolding with_prefix
  keep-from k [] h below asc = refl
  keep-from k (x ∷ xs) h (lt, below) (above, asc) =
      let h' = not_lt_mono k p (key x) h lt in
      elim (Bool-cases (has_prefix p (key x))) [
        | inl has ↦ rw has (ap (◌∷◌ x) (keep-from (key x) xs h' above asc))
        | inr not_has ↦ ground (arith, keep_after (key x) xs h' not_has above)
      ]

  -- In ascending order, walking from the prefix on as long as it stands finds all that have it.
  pub with_prefix-skip :
      (xs : List A)
      → IsAscending (map key xs)
      → with_prefix (skip_while (λ x. bytes_lt (key x) p) xs) ≡ keep (λ x. has_prefix p (key x)) xs
  unfolding with_prefix
  with_prefix-skip [] asc = refl
  with_prefix-skip (x ∷ xs) (above, asc) = elim (Bool-cases (bytes_lt (key x) p)) [
    | inl before ↦ ground (arith, not_prefix_of_lt (key x) p before, with_prefix-skip xs asc)
    | inr not_before ↦ elim (Bool-cases (has_prefix p (key x))) [
      | inl has ↦ ground (arith, keep-from (key x) xs not_before above asc)
      | inr not_has ↦ ground (arith, keep_after (key x) xs not_before not_has above)
    ]
  ]
