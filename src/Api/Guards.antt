-- ===== src/Api/Guards.antt =====
-- Where the calls of the API refuse an argument, and which guards the other ones meet.
use honeybadger.Base.{
  ℕ, Bytes, is_empty, is_negative, ◌≡◌, refl, ◌⊎◌, inl, inr, none, some, List, ◌∷◌, Option, arith,
  Bool-cases,
}
use honeybadger.Errors.{Error, Result, err, errors_is, invalid, Result-cases}
use honeybadger.Badger.{Badger}
use honeybadger.Raft.{Raft}
use honeybadger.Command.{Gob}
use honeybadger.Options.{SetOption, Mutation, ReadOptions, ScanOptions, resolve_limit}
use honeybadger.Batch.{set_command, delete_command, batch_command}
use honeybadger.Batch.Accepts.{refusals_invalid}
use honeybadger.Db.{Db, on_leader, submit, replicate}
use honeybadger.Write.{set_bytes, delete_bytes, batch_open}
use honeybadger.Read.{prepare_read, get_bytes, scan_prefix_bytes, view_badger}
use honeybadger.Cluster.{Member, bad_role, add_voter, remove_node, settle_future}
use honeybadger.Api.{IsInvalid}

module _ (G : Gob) {B : Badger} {R : Raft} where
  -- The call refuses an argument before it looks at the node, whatever the node is.
  abbrev pub RefusesArgument : {A : Type 0} → (Db B R → Result A × Db B R) → Type 0
  RefusesArgument f = (e : Error) × (((db : Db B R) → f db ≡ (err e, db)) × IsInvalid e)

  -- A call that does so, or runs behind the guards of a leader-only call.
  abbrev pub Guarded : (Db B R → Result (Unit {0}) × Db B R) → Type 0
  Guarded f =
      RefusesArgument f
      ⊎ ((call : Db B R → Result (Unit {0}) × Db B R) × ((db : Db B R) → f db ≡ on_leader call db))

  -- A read that does so, or fails where `prepareRead` fails, with what that returns.
  abbrev pub Prepared : {A : Type 0} → ReadOptions → (Db B R → Result A × Db B R) → Type 0
  Prepared ro f =
      RefusesArgument f
      ⊎ ((db : Db B R) (e : Error) (db' : Db B R)
          → prepare_read G ro db ≡ (err e, db')
          → f db ≡ (err e, db'))

  pub set_bytes-Guarded :
      (now : ℕ → ℕ) (key value : Bytes) (opts : List SetOption)
      → Guarded (set_bytes G now key value opts)
  unfolding set_bytes submit
  set_bytes-Guarded now key value opts = elim (Result-cases (set_command (now 0) key value opts)) [
    | inl (cmd, built) ↦ inr (replicate G cmd, λ db. ground arith)
    | inr (e, bad) ↦
        inl (e, ((λ db. ground arith), refusals_invalid.1 (now 0) key value opts e bad))
  ]

  pub delete_bytes-Guarded : (key : Bytes) → Guarded (delete_bytes G key)
  unfolding delete_bytes submit
  delete_bytes-Guarded key = elim (Result-cases (delete_command key)) [
    | inl (cmd, built) ↦ inr (replicate G cmd, λ db. ground arith)
    | inr (e, bad) ↦ inl (e, ((λ db. ground arith), refusals_invalid.2 key e bad))
  ]

  pub batch_open-Guarded :
      (now : ℕ → ℕ) (m : Mutation) (ms : List Mutation) → Guarded (batch_open G now (m ∷ ms))
  unfolding batch_open submit
  batch_open-Guarded now m ms = elim (Result-cases (batch_command now (m ∷ ms))) [
    | inl (cmd, built) ↦ inr (replicate G cmd, λ db. ground arith)
    | inr (e, bad) ↦ inl (e, ((λ db. ground arith), refusals_invalid.0 now (m ∷ ms) e bad))
  ]

  pub add_voter-Guarded : (m : Member) → Guarded (add_voter m)
  unfolding add_voter errors_is
  add_voter-Guarded m = elim (Bool-cases (is_empty m.id)) [
    | inl bad ↦ inl (invalid "AddVoter: node ID must not be empty", ((λ db. ground arith), refl))
    | inr id ↦ elim (Bool-cases (is_empty m.raft_addr)) [
      | inl bad ↦
          inl (invalid "AddVoter: node RaftAddr must not be empty", ((λ db. ground arith), refl))
      | inr addr ↦ elim (Bool-cases (bad_role m.role)) [
        | inl bad ↦
            inl
              (invalid "AddVoter: role must be RoleNone or RoleVoter", ((λ db. ground arith), refl))
        | inr role ↦
            let call : Db B R → Result (Unit {0}) × Db B R = λ db'.
              settle_future (R.add_voter m.id m.raft_addr db'.cfg.advanced.apply_timeout db'.raft)
                db' in
            inr (call, λ db. rw (id, addr, role) refl)
      ]
    ]
  ]

  pub remove_node-Guarded : (id : Bytes) → Guarded (remove_node id)
  unfolding remove_node errors_is
  remove_node-Guarded id = elim (Bool-cases (is_empty id)) [
    | inl bad ↦ inl (invalid "RemoveNode: node ID must not be empty", ((λ db. ground arith), refl))
    | inr full ↦
        let call : Db B R → Result (Unit {0}) × Db B R =
          λ db'. settle_future (R.remove_server id db'.cfg.advanced.apply_timeout db'.raft) db' in
        inr (call, λ db. rw full refl)
  ]

  pub get_bytes-Prepared : (key : Bytes) (ro : ReadOptions) → Prepared ro (get_bytes G key ro)
  unfolding get_bytes errors_is
  get_bytes-Prepared key ro = elim (Bool-cases (is_empty key)) [
    | inl empty ↦ inl (invalid "key must not be empty", ((λ db. ground arith), refl))
    | inr full ↦ inr (λ db e db' failed. ground arith)
  ]

  pub scan_prefix_bytes-Prepared :
      (prefix : Bytes) (so : ScanOptions) → Prepared so.read (scan_prefix_bytes G prefix so)
  unfolding scan_prefix_bytes resolve_limit errors_is
  scan_prefix_bytes-Prepared prefix so = elim (Bool-cases (is_negative so.limit)) [
    | inl negative ↦ inl (invalid "negative scan limit", ((λ db. ground arith), refl))
    | inr fine ↦ inr (λ db e db' failed. ground arith)
  ]

  pub view_badger-Prepared :
      {A : Type 0} (ro : ReadOptions) (fn : Option (B.Txn → Result A))
      → Prepared ro (view_badger G ro fn)
  unfolding view_badger errors_is
  view_badger-Prepared ro none = inl (invalid "nil ViewBadger callback", ((λ db. refl), refl))
  view_badger-Prepared ro (some fn) = inr (λ db e db' failed. ground arith)
