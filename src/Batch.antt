-- ===== src/Batch.antt =====
-- write.go: how the write calls build the command that they submit. `now i` is the clock when
-- the options of the call's i-th mutation are resolved.

pub mod Accepts
pub mod Order
use honeybadger.Base.{ℕ, suc, Bytes, is_empty, List, [], ◌∷◌, ◌++◌, if◌then◌else◌}
use honeybadger.Errors.{Result, ok, err, wrap_at, sentinel, invalid, invalid_argument, ◌>>=◌}
use honeybadger.Command.{CommandPair, Command}
use honeybadger.Command.Effect.{contains}
use honeybadger.Options.{Mutation, SetOption, mut_set, mut_delete, mut_other, resolve_set_options}

-- `SetBytes` up to `db.apply`, at the clock reading `now`.
unfoldable pub set_command : ℕ → Bytes → Bytes → List SetOption → Result Command
set_command now key value opts = if is_empty key then err (invalid "key must not be empty") else do
  expires_at ← resolve_set_options now opts
  ok (record {
    pairs = record { key = key; value = value; expires_at_unix = expires_at } ∷ [];
    deletes = [];
  })

-- `DeleteBytes` up to `db.apply`.
unfoldable pub delete_command : Bytes → Result Command
delete_command key =
    if is_empty key
    then err (invalid "key must not be empty")
    else ok (record { pairs = []; deletes = key ∷ [] })

-- The loop of `Batch`, from the mutation `i` on, over the variables `seenKeys`, `setPairs` and
-- `deleteKeys`.
unfoldable pub batch_loop :
    (ℕ → ℕ) → ℕ → List Mutation → List Bytes → List CommandPair → List Bytes → Result Command
batch_loop now i [] seen pairs deletes = ok (record { pairs = pairs; deletes = deletes })
batch_loop now i (m ∷ ms) seen pairs deletes =
    let rest : Result Command = elim m.kind [
      | mut_set ↦ elim (resolve_set_options (now i) m.opts) [
        | ok expires_at ↦
            batch_loop now (suc i) ms (m.key ∷ seen)
              (pairs
                ++ (record { key = m.key; value = m.value; expires_at_unix = expires_at } ∷ []))
              deletes
        | err e ↦ err (wrap_at "batch mutation" i e)
      ]
      | mut_delete ↦ batch_loop now (suc i) ms (m.key ∷ seen) pairs (deletes ++ (m.key ∷ []))
      | mut_other n ↦ err (
          wrap_at "batch mutation: not created by SetOp/SetBytesOp/DeleteOp/DeleteBytesOp" i
            (sentinel invalid_argument))
    ] in
    if is_empty m.key
    then err (wrap_at "batch mutation: key must not be empty" i (sentinel invalid_argument))
    else if contains m.key seen
    then err (wrap_at "batch mutation: duplicate key" i (sentinel invalid_argument))
    else rest

unfoldable pub batch_command : (ℕ → ℕ) → List Mutation → Result Command
unfolding batch_loop
batch_command now ms = batch_loop now 0 ms [] [] []
