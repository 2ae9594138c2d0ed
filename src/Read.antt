-- ===== src/Read.antt =====
-- read.go: the consistency of reads, the point read, the scan, the raw view and the barrier.
pub mod Barrier
pub mod Point
pub mod Scan
pub mod Hits
pub mod Complete
use honeybadger.Base.{
  ℕ, ℤ, Bytes, is_empty, has_prefix, is_negative, ltb, leb, length, ◌&&◌, List, [], ◌∷◌, ◌++◌,
  Option, none, some, if◌then◌else◌,
}
use honeybadger.Errors.{
  Result, ok, err, done, sentinel, key_not_found, badger_key_not_found, errors_is_foreign, invalid,
}
use honeybadger.Badger.{Badger}
use honeybadger.Raft.{Raft}
use honeybadger.Command.{Gob}
use honeybadger.Options.{
  ReadOptions, ReadMode, read_linearizable, read_local, read_other, timeout_or, ScanOptions,
  resolve_limit,
}
use honeybadger.Node.{Node, check_open, with_store}
use honeybadger.Fsm.{apply_log}
use honeybadger.Db.{Db, future_error, on_leader}

-- `Entry`
pub record ScanEntry : Type 0 where
  pub key : Bytes
  pub value : Bytes

module _ (B : Badger) where
  -- The callback of the point read.
  unfoldable pub read_value : Bytes → B.Txn → Result Bytes
  read_value key txn = elim (B.get txn key) [
    | ok item ↦ B.value_copy item
    | err e ↦
        if errors_is_foreign e badger_key_not_found then err (sentinel key_not_found) else err e
  ]

  -- The loop of the scan over the items that the iterator has ahead.
  unfoldable pub scan_loop : Bytes → ℕ → List B.ItemRef → List ScanEntry → Result (List ScanEntry)
  scan_loop prefix limit [] entries = ok entries
  scan_loop prefix limit (item ∷ items) entries =
      let rest : Result (List ScanEntry) = elim (B.value_copy item) [
        | err e ↦ err e
        | ok value ↦
            scan_loop prefix limit items
              (entries ++ (record { key = B.key_copy item; value = value } ∷ []))
      ] in
      if has_prefix prefix (B.key_copy item)
      then (if ltb 0 limit && leb limit (length entries) then ok entries else rest)
      else ok entries

  unfoldable pub scan_txn : Bytes → ℕ → B.Txn → Result (List ScanEntry)
  scan_txn prefix limit txn = scan_loop prefix limit (B.seek txn prefix) []

  -- A read-only transaction on the live store.
  abbrev pub view_store : {A : Type 0} → (B.Txn → Result A) → Node B → Result A
  view_store fn n = (with_store (λ d. (B.view fn d, d)) n).0

module _ (G : Gob) {B : Badger} {R : Raft} where
  -- `Barrier`
  unfoldable pub barrier : ℤ → Db B R → Result (Unit {0}) × Db B R
  barrier timeout db = elim (check_open db.node) [
    | err e ↦ (err e, db)
    | ok _ ↦
        let (result, ls, r) = R.barrier timeout db.raft in
        let db' : Db B R = record db { raft = r; node = apply_log G B ls db.node } in
        elim result [ ok _ ↦ (done, db') | err e ↦ future_error e db' ]
  ]

  -- The switch on the mode in `prepareRead`.
  unfoldable pub prepare_mode : ReadMode → ReadOptions → Db B R → Result (Unit {0}) × Db B R
  prepare_mode read_linearizable ro db =
      on_leader (barrier (timeout_or ro db.cfg.advanced.apply_timeout)) db
  prepare_mode read_local ro db = (check_open db.node, db)
  prepare_mode (read_other n) ro db = (err (invalid "unknown read mode"), db)

  -- `prepareRead`
  unfoldable pub prepare_read : ReadOptions → Db B R → Result (Unit {0}) × Db B R
  prepare_read ro db =
      if is_negative ro.timeout
      then (err (invalid "negative read timeout"), db)
      else prepare_mode ro.mode ro db

  -- A read through the guards of `prepareRead`.
  abbrev prepared : {A : Type 0} → ReadOptions → (B.Txn → Result A) → Db B R → Result A × Db B R
  prepared ro fn db =
      let (ready, db') = prepare_read ro db in
      elim ready [ err e ↦ (err e, db') | ok _ ↦ (view_store B fn db'.node, db') ]

  -- `GetBytes`, and `Get` and `GetWithOptions`
  unfoldable pub get_bytes : Bytes → ReadOptions → Db B R → Result Bytes × Db B R
  get_bytes key ro db =
      if is_empty key
      then (err (invalid "key must not be empty"), db)
      else prepared ro (read_value B key) db

  -- `ScanPrefixBytes`
  unfoldable pub scan_prefix_bytes : Bytes → ScanOptions → Db B R → Result (List ScanEntry) × Db B R
  scan_prefix_bytes prefix opts db = elim (resolve_limit opts) [
    | err e ↦ (err e, db)
    | ok limit ↦ prepared opts.read (scan_txn B prefix limit) db
  ]

  -- `ViewBadger`; the callback may be nil.
  unfoldable pub view_badger :
      {A : Type 0} → ReadOptions → Option (B.Txn → Result A) → Db B R → Result A × Db B R
  view_badger ro none db = (err (invalid "nil ViewBadger callback"), db)
  view_badger ro (some fn) db = prepared ro fn db
