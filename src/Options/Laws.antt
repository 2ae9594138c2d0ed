-- ===== src/Options/Laws.antt =====
-- What the resolution of options promises: expiries are absolute, bounded and never 0; the last
-- TTL wins; a scan is never unbounded by accident.
use honeybadger.Base.{
  ℕ, zero, suc, ◌+◌, ◌*◌, ◌≤◌, ◌<◌, ◌^◌, ℤ, pos, is_positive, is_negative, ◌≡◌, refl, Bool, true,
  false, Option, none, some, List, [], ◌∷◌, arith, if◌then◌else◌, or_else, ◌↔◌,
}
use honeybadger.Errors.{ok, err, invalid}
use honeybadger.Options.{
  SetOption, ttl_option, unknown_set_option, second, abs_expiry, resolve_loop, resolve_set_options,
  ScanOptions, resolve_limit,
}

-- The expiry stamped for a positive TTL is the whole second at or before now + TTL, and never the
-- 0 that stands for "persist forever", if the clock shows a time after the first second of 1970
-- and the sum fits 64 bits.
pub abs_expiry_bounds :
    (now ttl : ℕ)
    → second ≤ now
    → 0 < ttl
    → now + ttl < 2 ^ 64
    → (0 < abs_expiry now (pos ttl))
      × (abs_expiry now (pos ttl) * second ≤ now + ttl)
      × (now + ttl < abs_expiry now (pos ttl) * second + second)
unfolding abs_expiry
abs_expiry_bounds now zero h p b = elim p [ ]
abs_expiry_bounds now (suc t) h p b = omega arith

-- The TTL of the last option that has one.
abbrev pub last_ttl : List SetOption → Option ℤ
last_ttl [] = none
last_ttl (ttl_option t ∷ opts) = or_else (last_ttl opts) (some t)
last_ttl (unknown_set_option ∷ opts) = last_ttl opts

abbrev pub all_known : List SetOption → Bool
all_known [] = true
all_known (ttl_option t ∷ opts) = all_known opts
all_known (unknown_set_option ∷ opts) = false

resolve_loop_lem :
    (opts : List SetOption) (ttl : ℤ) (has : Bool)
    → resolve_loop opts ttl has ≡ (
        if all_known opts
        then elim (last_ttl opts) [ none ↦ ok (ttl, has) | some t ↦ ok (t, true) ]
        else err (invalid "unknown set option"))
unfolding resolve_loop
resolve_loop_lem [] ttl has = refl
resolve_loop_lem (ttl_option t ∷ opts) ttl has = ground (arith, resolve_loop_lem opts t true)
resolve_loop_lem (unknown_set_option ∷ opts) ttl has = refl

-- The expiry that the options of a write ask for. An unknown option is refused; without a TTL the
-- write persists forever; of several TTLs the last one counts, and it is refused unless positive.
pub resolve_set_options_lem :
    (now : ℕ) (opts : List SetOption)
    → resolve_set_options now opts ≡ (
        if all_known opts
        then elim (last_ttl opts) [
          | none ↦ ok 0
          | some t ↦
              if is_positive t
              then ok (abs_expiry now t)
              else err (invalid "option WithTTL requires a positive TTL")
        ]
        else err (invalid "unknown set option"))
unfolding resolve_set_options
resolve_set_options_lem now opts = ground (arith, resolve_loop_lem opts (pos 0) false)

-- A limit of 0, no limit at all, comes out exactly where `Unlimited` is set and the given limit is
-- not negative; a negative limit is refused also beside `Unlimited`.
pub resolve_limit_unlimited :
    (so : ScanOptions)
    → (resolve_limit so ≡ ok 0) ↔ ((so.unlimited ≡ true) × (is_negative so.limit ≡ false))
unfolding resolve_limit
resolve_limit_unlimited so = ground arith
