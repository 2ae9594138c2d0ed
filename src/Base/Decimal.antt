-- ===== src/Base/Decimal.antt =====
-- The decimal text of a number, as `strconv.FormatUint` and `%d` write it. The loop runs on fuel:
-- 20 digits are enough for 64 bits.
use Prim.Native.Nat.{ℕ, zero, suc, ◌+◌, ◌-◌, ◌*◌, ◌/◌, ◌%◌, ◌^◌, ◌<◌}
use mathlib.Core.Path.{◌≡◌, sym, ap, ◌∙◌}
use mathlib.Core.List.{[], ◌∷◌}
use native.Mathlib.Omega.{arith}
use honeybadger.Base.Tests.{◌==◌, if◌then◌else◌}
use honeybadger.Base.ByteStrings.{Bytes}

-- The digits of `n` before `out`.
unfoldable pub digits : ℕ → ℕ → Bytes → Bytes
digits zero n out = out
digits (suc fuel) n out =
    let more = digits fuel (n / 10) ((48 + n % 10) ∷ out) in if n == 0 then out else more

unfoldable pub format_uint : ℕ → Bytes
unfolding digits
format_uint n = if n == 0 then 48 ∷ [] else digits 20 n []

-- What a text of digits is worth, read from the left behind the number `n`.
abbrev pub value_from : ℕ → Bytes → ℕ
value_from n [] = n
value_from n (c ∷ text) = value_from (n * 10 + (c - 48)) text

value_from-digits :
    (fuel n : ℕ) (out : Bytes) → n < 10 ^ fuel → value_from 0 (digits fuel n out) ≡ value_from n out
unfolding digits
value_from-digits zero n out h = ground arith
value_from-digits (suc fuel) n out h =
    ground (arith, value_from-digits fuel (n / 10) ((48 + n % 10) ∷ out))

-- The decimal text of a 64-bit number is worth the number.
pub value_from-format_uint : (n : ℕ) → n < 2 ^ 64 → value_from 0 (format_uint n) ≡ n
unfolding format_uint
value_from-format_uint n h = ground (arith, value_from-digits 20 n [])

pub format_uint_injective :
    (m n : ℕ) → m < 2 ^ 64 → n < 2 ^ 64 → format_uint m ≡ format_uint n → m ≡ n
format_uint_injective m n hm hn same =
    sym (value_from-format_uint m hm) ∙ ap (value_from 0) same ∙ value_from-format_uint n hn
