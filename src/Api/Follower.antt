-- ===== src/Api/Follower.antt =====
-- What a node that is not the leader answers to the calls that only a leader serves.
use honeybadger.Base.{
  ℕ, List, Option, Bytes, is_negative, ◌≡◌, ◌∙◌, refl, ◌⊎◌, inl, inr, true, false, not, some, [],
  ◌∷◌, arith, Bool-cases,
}
use honeybadger.Errors.{Error, Result, err, not_leader_error, errors_is, invalid}
use honeybadger.Badger.{Badger}
use honeybadger.Raft.{Raft}
use honeybadger.Command.{Gob}
use honeybadger.Options.{Mutation, ReadMode, read_linearizable, read_local, read_other, ReadOptions}
use honeybadger.Node.{check_open}
use honeybadger.Db.{Db, is_leader, not_leader_err, on_leader}
use honeybadger.Write.{batch, batch_open}
use honeybadger.Read.{prepare_mode, prepare_read}
use honeybadger.Api.{
  Call, set_call, delete_call, batch_call, get_call, scan_call, view_call, barrier_call,
  add_voter_call, remove_node_call, members_call, snapshot_call, status_call, is_local, leader_only,
  IsInvalid, reply, respond,
}
use honeybadger.Api.Guards.{
  RefusesArgument, Guarded, Prepared, set_bytes-Guarded, delete_bytes-Guarded, batch_open-Guarded,
  add_voter-Guarded, remove_node-Guarded, get_bytes-Prepared, scan_prefix_bytes-Prepared,
  view_badger-Prepared,
}

module _ {B : Badger} {R : Raft} (db : Db B R) (addr id : Bytes) (r : R.State) where
  -- The node, of which nothing has changed but that Raft was asked for its state and its leader.
  abbrev pub asked : Db B R
  asked = record db { raft = r }

  module _ (G : Gob) (is_open : db.node.closed ≡ false)
      (follows : is_leader (R.state db.raft).0 ≡ false)
      (knows : R.leader_with_id (R.state db.raft).1 ≡ (addr, id, r)) where
    refused_guard :
        (call : Db B R → Result (Unit {0}) × Db B R)
        → on_leader call db ≡ (err (not_leader_error id addr), asked)
    unfolding on_leader check_open not_leader_err
    refused_guard call = ground (arith, knows)

    -- A call that was refused, with the leader's ID and address or for an argument.
    abbrev IsRefused : {A : Type 0} → (Db B R → Result A × Db B R) → Type 0
    IsRefused f = (f db ≡ (err (not_leader_error id addr), asked)) ⊎ RefusesArgument G f

    -- What `follower_refuses` says of the answers of a call.
    abbrev IsAnswered : (Db B R → Option Error × Db B R) → Type 0
    IsAnswered f =
        (f db ≡ (some (not_leader_error id addr), asked))
        ⊎ ((e : Error) × (((s : R.State)
                → f (record db { raft = s }) ≡ (some e, record db { raft = s }))
              × IsInvalid e))

    answer :
        {A : Type 0} (f : Db B R → Result A × Db B R)
        → IsRefused f
        → IsAnswered (λ db'. reply (f db'))
    answer f (inl hint) = inl (rw hint refl)
    answer f (inr (e, (same, bad))) = inr (e, ((λ s. rw (same (record db { raft = s })) refl), bad))

    -- A batch of an open node is `batch_open`.
    answer_batch :
        (now : ℕ → ℕ) (ms : List Mutation)
        → IsRefused (batch_open G now ms)
        → IsAnswered (λ db'. reply (batch G now ms db'))
    unfolding batch check_open
    answer_batch now ms (inl hint) = inl (ground (arith, hint))
    answer_batch now ms (inr (e, (same, bad))) =
        inr (e, ((λ s. ground (arith, same (record db { raft = s }))), bad))

    IsRefused-Guarded : (f : Db B R → Result (Unit {0}) × Db B R) → Guarded G f → IsRefused f
    IsRefused-Guarded f (inl bad) = inr bad
    IsRefused-Guarded f (inr (call, same)) = inl (same db ∙ refused_guard call)

    IsRefused-prepare_mode :
        (mode : ReadMode) (ro : ReadOptions)
        → not (is_local mode) ≡ true
        → IsRefused (prepare_mode G mode ro)
    unfolding prepare_mode errors_is
    IsRefused-prepare_mode read_linearizable ro only = inl (refused_guard _)
    IsRefused-prepare_mode read_local ro only = absurd (ground arith)
    IsRefused-prepare_mode (read_other n) ro only =
        inr (invalid "unknown read mode", ((λ db'. refl), refl))

    IsRefused-prepare_read :
        (ro : ReadOptions) → not (is_local ro.mode) ≡ true → IsRefused (prepare_read G ro)
    unfolding prepare_read errors_is
    IsRefused-prepare_read ro only = elim (Bool-cases (is_negative ro.timeout)) [
      | inl negative ↦ inr (invalid "negative read timeout", ((λ db'. ground arith), refl))
      | inr fine ↦ rw fine (IsRefused-prepare_mode ro.mode ro only)
    ]

    IsRefused-Prepared :
        {A : Type 0} (ro : ReadOptions) (f : Db B R → Result A × Db B R)
        → not (is_local ro.mode) ≡ true
        → Prepared G ro f
        → IsRefused f
    IsRefused-Prepared ro f only (inl bad) = inr bad
    IsRefused-Prepared ro f only (inr fails) = elim (IsRefused-prepare_read ro only) [
      | inl hint ↦ inl (fails db _ _ hint)
      | inr (e, (same, bad)) ↦ inr (e, ((λ db'. fails db' e db' (same db')), bad))
    ]

    -- Every call that only a leader serves, with any arguments, is refused by an open node that is
    -- not the leader. Either it returns the NotLeaderError with the ID and the address of the leader
    -- that Raft knows, and the node is as before, Raft only having been asked for its state and its
    -- leader; or it returns an error that wraps ErrInvalidArgument, with nothing changed,
    -- and does so in whatever state Raft is, so where the node leads, too.
    pub follower_refuses :
        (c : Call B)
        → leader_only c ≡ true
        → (respond G c db ≡ (some (not_leader_error id addr), asked))
          ⊎ ((e : Error) × (((s : R.State)
                  → respond G c (record db { raft = s }) ≡ (some e, record db { raft = s }))
                × IsInvalid e))
    unfolding respond
    follower_refuses (set_call now key value opts) only =
        answer _ (IsRefused-Guarded _ (set_bytes-Guarded G now key value opts))
    follower_refuses (delete_call key) only =
        answer _ (IsRefused-Guarded _ (delete_bytes-Guarded G key))
    follower_refuses (batch_call now []) only = absurd (ground arith)
    follower_refuses (batch_call now (m ∷ ms)) only =
        answer_batch now (m ∷ ms) (IsRefused-Guarded _ (batch_open-Guarded G now m ms))
    follower_refuses (get_call key ro) only =
        answer _ (IsRefused-Prepared ro _ only (get_bytes-Prepared G key ro))
    follower_refuses (scan_call prefix so) only =
        answer _ (IsRefused-Prepared so.read _ only (scan_prefix_bytes-Prepared G prefix so))
    follower_refuses (view_call ro fn) only =
        answer _ (IsRefused-Prepared ro _ only (view_badger-Prepared G ro fn))
    follower_refuses (add_voter_call m) only =
        answer _ (IsRefused-Guarded _ (add_voter-Guarded G m))
    follower_refuses (remove_node_call id) only =
        answer _ (IsRefused-Guarded _ (remove_node-Guarded G id))
    follower_refuses (barrier_call timeout) only = absurd (ground arith)
    follower_refuses members_call only = absurd (ground arith)
    follower_refuses snapshot_call only = absurd (ground arith)
    follower_refuses status_call only = absurd (ground arith)
