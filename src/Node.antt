-- ===== src/Node.antt =====
-- db.go: the state that the FSM and the API share, and the guards over the live store.
--
-- `Node` holds the fields of `DB` that change after `Open` or that restore reads, and the
-- `appliedIndex` of `fsm`. `store` is `none` where `db.store` is nil. What the code prints to its
-- logger is appended to `log_lines`. Each operation runs as one step: `storeMu` keeps a restore or
-- a close apart from the users of the store (Locks).
use honeybadger.Base.{ℕ, Bytes, Bool, Option, none, some, List, [], ◌∷◌, ◌++◌}
use honeybadger.Base.{if◌then◌else◌}
use honeybadger.Errors.{Error, Result, err, err_closed, done, wrap}
use honeybadger.Badger.{Badger, BadgerOptions}

pub record Node (B : Badger) : Type 0 where
  pub store : Option B.Db
  pub badger_opts : BadgerOptions B.Tuning
  pub badger_dir : Bytes
  pub applied_index : ℕ
  pub closed : Bool
  pub log_lines : List Error

module _ {B : Badger} where
  -- `logger.Printf("fsm: …: %v", err)`
  abbrev pub print_line : Error → Node B → Node B
  print_line e n = record n { log_lines = n.log_lines ++ (wrap "fsm" e ∷ []) }

  unfoldable pub check_open : Node B → Result (Unit {0})
  check_open n = if n.closed then err err_closed else done

  -- The callback's result, and the node with the store as the callback leaves it.
  abbrev pub run_on : {A : Type 0} → (B.Db → Result A × B.Db) → B.Db → Node B → Result A × Node B
  run_on fn b n = let (r, b') = fn b in (r, record n { store = some b' })

  unfoldable pub with_store : {A : Type 0} → (B.Db → Result A × B.Db) → Node B → Result A × Node B
  with_store fn n =
      if n.closed
      then (err err_closed, n)
      else elim n.store [ none ↦ (err err_closed, n) | some b ↦ run_on fn b n ]
