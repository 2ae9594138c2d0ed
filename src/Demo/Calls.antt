-- ===== src/Demo/Calls.antt =====
-- db.go, cluster.go, status.go: what a call of a node does not touch.
use honeybadger.Base.{
  ℕ, ℤ, Bytes, ◌≡◌, refl, ◌∙◌, ap, List, [], ◌∷◌, arith, inl, inr, Bool-cases, is_empty,
}
use honeybadger.Errors.{Error, Result, Result-cases, errors_is_foreign, raft_not_leader}
use honeybadger.Badger.{Badger}
use honeybadger.Raft.{Raft, Outcome, refused, committed}
use honeybadger.Command.{Command, LogEntry, Gob}
use honeybadger.Options.{SetOption, Mutation}
use honeybadger.Node.{Node, check_open}
use honeybadger.Fsm.{apply, apply_log, encode_command}
use honeybadger.Batch.{set_command, batch_command}
use honeybadger.Db.{
  Db, is_leader, not_leader_err, future_error, on_leader, settle, replicate, submit,
}
use honeybadger.Write.{set_bytes, batch_open, batch}
use honeybadger.Cluster.{Member, bad_role, add_voter}
use honeybadger.Status.{status}
use honeybadger.Handles.{held}
use honeybadger.Open.{Host}
use honeybadger.Open.Laws.{HostLaws}
use honeybadger.Open.FsmCalls.{held-apply}

-- What Raft documents of its other calls: they open and close none of a node's parts.
pub record CallLaws {B : Badger} {R : Raft} {H : Host B R} (P : HostLaws H) : Type 0 where
  pub parts-state : (r : R.State) → P.parts (R.state r).1 ≡ P.parts r
  pub parts-leader_with_id : (r : R.State) → P.parts (R.leader_with_id r).2 ≡ P.parts r
  pub parts-apply :
      (content : Bytes) (timeout : ℤ) (r : R.State)
      → P.parts (R.apply content timeout r).1 ≡ P.parts r
  pub parts-add_voter :
      (id addr : Bytes) (timeout : ℤ) (r : R.State)
      → P.parts (R.add_voter id addr timeout r).1 ≡ P.parts r
  pub parts-get_configuration : (r : R.State) → P.parts (R.get_configuration r).1 ≡ P.parts r

module _ {B : Badger} {R : Raft} {H : Host B R} {P : HostLaws H} (C : CallLaws P) where
  -- A call that leaves the parts of Raft up, the store in place, and `Close` as it was.
  pub record IsKept (db db' : Db B R) : Type 0 where
    pub parts_eq : P.parts db'.raft ≡ P.parts db.raft
    pub close_eq : db'.close_result ≡ db.close_result
    pub held_eq : held db'.node.store ≡ held db.node.store

  pub IsKept-refl : (db db' : Db B R) → db' ≡ db → IsKept db db'
  IsKept-refl db db' same = record {
    parts_eq = ap (λ (x : Db B R). P.parts x.raft) same;
    close_eq = ap (λ (x : Db B R). x.close_result) same;
    held_eq = ap (λ (x : Db B R). held x.node.store) same;
  }

  pub IsKept-trans : {a b c : Db B R} → IsKept a b → IsKept b c → IsKept a c
  IsKept-trans h k = record {
    parts_eq = k.parts_eq ∙ h.parts_eq;
    close_eq = k.close_eq ∙ h.close_eq;
    held_eq = k.held_eq ∙ h.held_eq;
  }

  pub IsKept-to : {db x y : Db B R} → x ≡ y → IsKept db y → IsKept db x
  IsKept-to same kept = IsKept-trans kept (IsKept-refl _ _ same)

  pub status-IsKept : (db : Db B R) → IsKept db (status db).1
  unfolding status check_open
  status-IsKept db =
      let r₁ = (R.state db.raft).1 in
      let r₂ = (R.leader_with_id r₁).2 in
      elim (Bool-cases db.node.closed) [
        | inl is_closed ↦ IsKept-refl db (status db).1 (ground arith)
        | inr is_open ↦ elim (Result-cases (R.get_configuration r₂).0) [
          | inl (servers, got) ↦ record {
            parts_eq = ground (
              arith,
              C.parts-state db.raft,
              C.parts-leader_with_id r₁,
              C.parts-get_configuration r₂,
            );
            close_eq = ground arith;
            held_eq = ground arith;
          }
          | inr (e, failed) ↦ record {
            parts_eq = ground (
              arith,
              C.parts-state db.raft,
              C.parts-leader_with_id r₁,
              C.parts-get_configuration r₂,
            );
            close_eq = ground arith;
            held_eq = ground arith;
          }
        ]
      ]

  refuse-IsKept : (db : Db B R) → IsKept db (not_leader_err db).1
  unfolding not_leader_err
  refuse-IsKept db = record {
    parts_eq = C.parts-leader_with_id db.raft;
    close_eq = refl;
    held_eq = refl;
  }

  future_error-IsKept : (e : Error) (db : Db B R) → IsKept db (future_error e db).1
  unfolding future_error
  future_error-IsKept e db = elim (Bool-cases (errors_is_foreign e raft_not_leader)) [
    | inl follows ↦ rw follows (refuse-IsKept db)
    | inr other ↦ rw other (IsKept-refl db db refl)
  ]

  on_leader-IsKept :
      (call : Db B R → Result (Unit {0}) × Db B R) (db : Db B R)
      → ((db' : Db B R) → IsKept db' (call db').1)
      → IsKept db (on_leader call db).1
  unfolding on_leader check_open
  on_leader-IsKept call db keeps =
      let db' : Db B R = record db { raft = (R.state db.raft).1 } in
      let first : IsKept db db' = record {
        parts_eq = C.parts-state db.raft;
        close_eq = refl;
        held_eq = refl;
      } in
      elim (Bool-cases db.node.closed) [
        | inl is_closed ↦ IsKept-refl db _ (ground arith)
        | inr is_open ↦ elim (Bool-cases (is_leader (R.state db.raft).0)) [
          | inl leads ↦ IsKept-to (ground arith) (IsKept-trans first (keeps db'))
          | inr follows ↦ IsKept-to (ground arith) (IsKept-trans first (refuse-IsKept db'))
        ]
      ]

  module _ (G : Gob) where
    held-apply_log :
        (ls : List LogEntry) (n : Node B) → held (apply_log G B ls n).store ≡ held n.store
    unfolding apply_log
    held-apply_log [] n = refl
    held-apply_log (l ∷ ls) n = held-apply_log ls (apply G B l n).1 ∙ held-apply G B l n

    settle-IsKept : (x : Outcome) (db : Db B R) → IsKept db (settle G x db).1
    unfolding settle
    settle-IsKept (refused ls e) db =
        let db' : Db B R = record db { node = apply_log G B ls db.node } in
        let first : IsKept db db' = record {
          parts_eq = refl;
          close_eq = refl;
          held_eq = held-apply_log ls db.node;
        } in
        IsKept-trans first (future_error-IsKept e db')
    settle-IsKept (committed ls l) db = record {
      parts_eq = refl;
      close_eq = refl;
      held_eq = held-apply G B l (apply_log G B ls db.node) ∙ held-apply_log ls db.node;
    }

    submit-IsKept : (cmd : Command) (db : Db B R) → IsKept db (submit G cmd db).1
    unfolding submit replicate
    submit-IsKept cmd db = on_leader-IsKept (replicate G cmd) db λ db'.
        elim (Result-cases (encode_command G cmd)) [
          | inr (e, failed) ↦ IsKept-refl db' _ (ground arith)
          | inl (content, encoded) ↦
              let x = R.apply content db'.cfg.advanced.apply_timeout db'.raft in
              let db'' : Db B R = record db' { raft = x.1 } in
              let first : IsKept db' db'' = record {
                parts_eq = C.parts-apply content db'.cfg.advanced.apply_timeout db'.raft;
                close_eq = refl;
                held_eq = refl;
              } in
              IsKept-to (ground arith) (IsKept-trans first (settle-IsKept x.0 db''))
        ]

    pub set_bytes-IsKept :
        (now : ℕ → ℕ) (key value : Bytes) (opts : List SetOption) (db : Db B R)
        → IsKept db (set_bytes G now key value opts db).1
    unfolding set_bytes
    set_bytes-IsKept now key value opts db =
        elim (Result-cases (set_command (now 0) key value opts)) [
          | inr (e, failed) ↦ rw failed (IsKept-refl db db refl)
          | inl (cmd, built) ↦ rw built (submit-IsKept cmd db)
        ]

    batch_open-IsKept :
        (now : ℕ → ℕ) (ms : List Mutation) (db : Db B R) → IsKept db (batch_open G now ms db).1
    unfolding batch_open
    batch_open-IsKept now [] db = IsKept-refl db db refl
    batch_open-IsKept now (m ∷ ms) db = elim (Result-cases (batch_command now (m ∷ ms))) [
      | inr (e, failed) ↦ rw failed (IsKept-refl db db refl)
      | inl (cmd, built) ↦ rw built (submit-IsKept cmd db)
    ]

    pub batch-IsKept :
        (now : ℕ → ℕ) (ms : List Mutation) (db : Db B R) → IsKept db (batch G now ms db).1
    unfolding batch check_open
    batch-IsKept now ms db = elim (Bool-cases db.node.closed) [
      | inl is_closed ↦ IsKept-refl db _ (ground arith)
      | inr is_open ↦
          IsKept-to {x = _} {y = (batch_open G now ms db).1} (ground arith)
            (batch_open-IsKept now ms db)
    ]

  pub add_voter-IsKept : (m : Member) (db : Db B R) → IsKept db (add_voter m db).1
  unfolding add_voter
  add_voter-IsKept m db = elim (Bool-cases (is_empty m.id)) [
    | inl bad ↦ rw bad (IsKept-refl db db refl)
    | inr good_id ↦ elim (Bool-cases (is_empty m.raft_addr)) [
      | inl bad ↦ rw (good_id, bad) (IsKept-refl db db refl)
      | inr good_addr ↦ elim (Bool-cases (bad_role m.role)) [
        | inl bad ↦ rw (good_id, good_addr, bad) (IsKept-refl db db refl)
        | inr good ↦
            rw (good_id, good_addr, good)
              (on_leader-IsKept _ db λ db'.
                let x = R.add_voter m.id m.raft_addr db'.cfg.advanced.apply_timeout db'.raft in
                let db'' : Db B R = record db' { raft = x.1 } in
                let first : IsKept db' db'' = record {
                  parts_eq =
                      C.parts-add_voter m.id m.raft_addr db'.cfg.advanced.apply_timeout db'.raft;
                  close_eq = refl;
                  held_eq = refl;
                } in
                elim (Result-cases x.0) [
                  | inl (_, added) ↦ rw added first
                  | inr (e, failed) ↦ rw failed (IsKept-trans first (future_error-IsKept e db''))
                ])
      ]
    ]
  ]
