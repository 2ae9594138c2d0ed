-- ===== src/Options.antt =====
-- options.go: the sealed options and their resolution; `absExpiry` of write.go.
pub mod Laws
use honeybadger.Base.{
  ℕ, suc, ◌+◌, ◌-◌, ◌/◌, ◌%◌, ◌^◌, ℤ, pos, negsuc, is_positive, is_negative, is_zero, ltb, Bool,
  true, false, not, Bytes, List, [], ◌∷◌, if◌then◌else◌,
}
use honeybadger.Errors.{Result, ok, err, invalid, ◌>>=◌}

-- `OpenOption`. The interface is sealed, but a nil value reaches the default branch.
pub data OpenOption : Type 0 where
  new_cluster_option unknown_open_option : OpenOption

-- `SetOption`
pub data SetOption : Type 0 where
  ttl_option : ℤ → SetOption
  unknown_set_option : SetOption

abbrev pub with_ttl : ℤ → SetOption
with_ttl ttl = ttl_option ttl

abbrev pub second : ℕ
second = 1_000_000_000

-- `time.Time.Add` on nanoseconds since 1970.
unfoldable pub add_duration : ℕ → ℤ → ℤ
add_duration now (pos n) = pos (now + n)
add_duration now (negsuc n) = if ltb n now then pos (now - suc n) else negsuc (n - now)

-- `Unix()`: whole seconds, rounded down.
unfoldable pub unix : ℤ → ℤ
unix (pos n) = pos (n / second)
unix (negsuc n) = negsuc (n / second)

-- `uint64(x)`
unfoldable pub to_uint64 : ℤ → ℕ
to_uint64 (pos n) = n % 2 ^ 64
to_uint64 (negsuc n) = 2 ^ 64 - 1 - n % 2 ^ 64

-- `absExpiry`, at the clock reading `now`.
unfoldable pub abs_expiry : ℕ → ℤ → ℕ
unfolding add_duration unix to_uint64
abs_expiry now ttl = if is_zero ttl then 0 else to_uint64 (unix (add_duration now ttl))

-- The loop of `resolveSetOptions` over the variables `ttl` and `hasTTL`.
unfoldable pub resolve_loop : List SetOption → ℤ → Bool → Result (ℤ × Bool)
resolve_loop [] ttl has_ttl = ok (ttl, has_ttl)
resolve_loop (ttl_option t ∷ opts) ttl has_ttl = resolve_loop opts t true
resolve_loop (unknown_set_option ∷ opts) ttl has_ttl = err (invalid "unknown set option")

-- `resolveSetOptions`, at the clock reading `now`.
unfoldable pub resolve_set_options : ℕ → List SetOption → Result ℕ
unfolding resolve_loop
resolve_set_options now opts = do
  (ttl, has_ttl) ← resolve_loop opts (pos 0) false
  if not has_ttl
      then ok 0
      else if is_positive ttl
      then ok (abs_expiry now ttl)
      else err (invalid "option WithTTL requires a positive TTL")

-- `mutKind`: the two constants, and any other value of the `uint8`.
pub data MutKind : Type 0 where
  mut_set mut_delete : MutKind
  mut_other : ℕ → MutKind

pub record Mutation : Type 0 where
  pub kind : MutKind
  pub key : Bytes
  pub value : Bytes
  pub opts : List SetOption

abbrev pub set_bytes_op : Bytes → Bytes → List SetOption → Mutation
set_bytes_op key value opts = record { kind = mut_set; key = key; value = value; opts = opts }

abbrev pub delete_bytes_op : Bytes → Mutation
delete_bytes_op key = record { kind = mut_delete; key = key; value = []; opts = [] }

-- `ReadMode`: the two constants, and any other value of the `uint8`.
pub data ReadMode : Type 0 where
  read_linearizable read_local : ReadMode
  read_other : ℕ → ReadMode

pub record ReadOptions : Type 0 where
  pub mode : ReadMode
  pub timeout : ℤ

abbrev pub timeout_or : ReadOptions → ℤ → ℤ
timeout_or ro def = if is_positive ro.timeout then ro.timeout else def

pub record ScanOptions : Type 0 where
  pub read : ReadOptions
  pub limit : ℤ
  pub unlimited : Bool

abbrev pub default_scan_limit : ℕ
default_scan_limit = 100

-- The value of a non-negative `int`.
abbrev pub to_ℕ : ℤ → ℕ
to_ℕ (pos n) = n
to_ℕ (negsuc n) = 0

-- `resolveLimit`: 0 stands for no limit.
unfoldable pub resolve_limit : ScanOptions → Result ℕ
resolve_limit so =
    if is_negative so.limit
    then err (invalid "negative scan limit")
    else if so.unlimited
    then ok 0
    else if is_zero so.limit
    then ok default_scan_limit
    else ok (to_ℕ so.limit)

-- `parseOpenOptions` of db.go: whether `NewCluster` was passed.
parse_loop : List OpenOption → Bool → Result Bool
parse_loop [] new_cluster = ok new_cluster
parse_loop (new_cluster_option ∷ opts) true =
    err (invalid "option NewCluster passed more than once")
parse_loop (new_cluster_option ∷ opts) false = parse_loop opts true
parse_loop (unknown_open_option ∷ opts) new_cluster = err (invalid "unknown open option")

unfoldable pub parse_open_options : List OpenOption → Result Bool
unfolding parse_loop
parse_open_options opts = parse_loop opts false
