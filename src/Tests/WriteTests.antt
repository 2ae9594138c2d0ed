-- ===== src/Tests/WriteTests.antt =====
-- Options and batches at concrete inputs.
use honeybadger.Base.{
  ℕ, ◌+◌, ◌*◌, ◌≤◌, ◌<◌, Bytes, codes, pos, negsuc, ◌≡◌, refl, true, ◌&&◌, List, [], ◌∷◌, arith,
  bytes_eq,
}
use honeybadger.Errors.{ok, is_ok}
use honeybadger.Command.{Command}
use honeybadger.Command.Effect.{after, after_log}
use honeybadger.Badger.{Contents}
use honeybadger.Options.{
  Mutation, SetOption, ttl_option, set_bytes_op, delete_bytes_op, second, abs_expiry, resolve_loop,
  resolve_set_options, ScanOptions, read_linearizable, resolve_limit,
}
use honeybadger.Options.Laws.{abs_expiry_bounds}
use honeybadger.Batch.{batch_loop, batch_command}
use honeybadger.Batch.Order.{singles, batch-order}
use honeybadger.Batch.Accepts.{keys, distinct, each_accepted, batch_accepts}
use honeybadger.Tests.Data.{a, b}

abbrev now : ℕ
now = 1_700_000_000_500_000_000

abbrev clock : ℕ → ℕ
clock i = now + i

expiry_rounds_down : abs_expiry now (pos 2_600_000_000) ≡ 1_700_000_003
unfolding abs_expiry
expiry_rounds_down = refl

abs_expiry_bounds_example :
    (0 < abs_expiry now (pos 2_600_000_000))
    × (abs_expiry now (pos 2_600_000_000) * second ≤ now + 2_600_000_000)
    × (now + 2_600_000_000 < abs_expiry now (pos 2_600_000_000) * second + second)
abs_expiry_bounds_example =
    abs_expiry_bounds now 2_600_000_000 (omega arith) (omega arith) (omega arith)

abbrev opts : List SetOption
opts = ttl_option (negsuc 4) ∷ ttl_option (pos 5_000_000_000) ∷ []

abbrev scan : ScanOptions
scan = record {
  read = record { mode = read_linearizable; timeout = pos 0 };
  limit = pos 7;
  unlimited = true;
}

run_resolve_limit : resolve_limit scan ≡ ok 0
unfolding resolve_limit
run_resolve_limit = refl

abbrev mutations : List Mutation
mutations = delete_bytes_op a ∷ set_bytes_op b (codes "2") opts ∷ []

abbrev batched : Command
batched = record {
  pairs = record { key = b; value = codes "2"; expires_at_unix = 1_700_000_005 } ∷ [];
  deletes = a ∷ [];
}

run_batch : batch_command clock mutations ≡ ok batched
unfolding batch_command batch_loop resolve_set_options resolve_loop abs_expiry bytes_eq
run_batch = refl

batch-order_example :
    (cs : List Command) × (singles clock 0 mutations ≡ ok cs)
    × ((m : Contents) (k : Bytes) → after batched m k ≡ after_log cs m k)
batch-order_example = batch-order clock mutations run_batch

batch_accepts_example :
    is_ok (batch_command clock mutations)
    ≡ (each_accepted clock 0 mutations && distinct (keys mutations))
batch_accepts_example = batch_accepts clock mutations
