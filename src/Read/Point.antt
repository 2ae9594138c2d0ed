-- ===== src/Read/Point.antt =====
-- The point read: what it returns, and that it sees the node's own writes.
use honeybadger.Base.{
  ℕ, Bytes, bytes_eq_refl, is_empty, ◌≡◌, false, none, some, List, arith, inl, inr, Bool-cases,
  Option-cases,
}
use honeybadger.Errors.{ok, err, done, sentinel, key_not_found, errors_is_foreign, Result-cases}
use honeybadger.Badger.{Badger, Stored, TxnLaws, ReadLaws, visible}
use honeybadger.Raft.{Raft, RaftLaws}
use honeybadger.Command.{Gob, GobLaws}
use honeybadger.Options.{SetOption, ReadOptions, read_local}
use honeybadger.Node.{with_store}
use honeybadger.Db.{Db}
use honeybadger.Write.{set_bytes}
use honeybadger.Write.Effect.{set_bytes_ok}
use honeybadger.Read.{read_value, prepare_mode, prepare_read, get_bytes}

-- A local read asks Raft nothing and changes nothing.
pub get_bytes_local :
    (G : Gob) {B : Badger} {R : Raft} (key : Bytes) (ro : ReadOptions) (db : Db B R)
    → ro.mode ≡ read_local
    → (get_bytes G key ro db).1 ≡ db
unfolding get_bytes prepare_read prepare_mode
get_bytes_local G key ro db local = ground arith

module _ (B : Badger) (L : TxnLaws B) (Q : ReadLaws B L) where
  -- The Unix time that a read of this store goes by.
  abbrev pub read_clock : B.Db → ℕ
  read_clock d = Q.clock (L.begin d)

  read_value_ok :
      (key : Bytes) (t : B.Txn) (b : Bytes)
      → read_value B key t ≡ ok b
      → (v : Stored) × (visible (Q.clock t) (L.seen t key) ≡ some v) × (v.value ≡ b)
  unfolding read_value
  read_value_ok key t b h = elim (Result-cases (B.get t key)) [
    | inr (e, failed) ↦ absurd (ground arith)
    | inl (r, found) ↦ Q.get_present t key r b found (ground arith)
  ]

  read_value_absent :
      (key : Bytes) (t : B.Txn)
      → visible (Q.clock t) (L.seen t key) ≡ none
      → read_value B key t ≡ err (sentinel key_not_found)
  unfolding read_value errors_is_foreign
  read_value_absent key t h = ground (arith, Q.get_absent t key h)

  module _ (R : Raft) (G : Gob) where
    -- A read that returns a value has found it, visible, in the node's live store, as that is
    -- after the barrier where the read is linearizable.
    pub get_bytes_value :
        (key : Bytes) (ro : ReadOptions) (db : Db B R) (b : Bytes)
        → (get_bytes G key ro db).0 ≡ ok b
        → (d : B.Db) × ((get_bytes G key ro db).1.node.store ≡ some d)
          × ((v : Stored) × (visible (read_clock d) (L.stored d key) ≡ some v) × (v.value ≡ b))
    unfolding get_bytes with_store
    get_bytes_value key ro db b h =
        let ready = (prepare_read G ro db).0 in
        let n = (prepare_read G ro db).1.node in
        elim (Bool-cases (is_empty key)) [
          | inl empty ↦ absurd (ground arith)
          | inr full ↦ elim (Result-cases ready) [
            | inr (e, failed) ↦ absurd (ground arith)
            | inl (_, passed) ↦ elim (Bool-cases n.closed) [
              | inl is_closed ↦ absurd (ground arith)
              | inr is_open ↦ elim (Option-cases n.store) [
                | inl gone ↦ absurd (ground arith)
                | inr (d, live) ↦
                    let (v, seen, same) =
                      read_value_ok key (L.begin d) b
                        (ground (arith, Q.view_runs (read_value B key) d)) in
                    (d, ground arith, (v, ground (arith, L.seen-begin d key), same))
              ]
            ]
          ]
        ]

    -- A read that passes its guards on a live store, of a key that is missing or expired there,
    -- returns ErrKeyNotFound.
    pub get_bytes_absent :
        (key : Bytes) (ro : ReadOptions) (db : Db B R) (d : B.Db)
        → is_empty key ≡ false
        → (prepare_read G ro db).0 ≡ done
        → (prepare_read G ro db).1.node.closed ≡ false
        → (prepare_read G ro db).1.node.store ≡ some d
        → visible (read_clock d) (L.stored d key) ≡ none
        → get_bytes G key ro db ≡ (err (sentinel key_not_found), (prepare_read G ro db).1)
    unfolding get_bytes with_store
    get_bytes_absent key ro db d full ready is_open live h = ground (
      arith,
      Q.view_runs (read_value B key) d,
      L.seen-begin d key,
      read_value_absent key (L.begin d),
    )

  -- A node reads its own writes: after a Set that returned nil, a local read of the key on the same
  -- node that returns a value returns the value that was set.
  pub read_your_write :
      (R : Raft) (RL : RaftLaws R) (G : Gob) (GL : GobLaws G) (now : ℕ → ℕ) (key value : Bytes)
      (opts : List SetOption) (ro : ReadOptions) (db : Db B R) (b : Bytes)
      → (set_bytes G now key value opts db).0 ≡ done
      → ro.mode ≡ read_local
      → (get_bytes G key ro (set_bytes G now key value opts db).1).0 ≡ ok b
      → b ≡ value
  read_your_write R RL G GL now key value opts ro db b set local got =
      let db' = (set_bytes G now key value opts db).1 in
      let (e, resolved, effect) = set_bytes_ok B L R RL G GL now key value opts db set in
      let (d, live, (v, seen, same)) = get_bytes_value R G key ro db' b got in
      ground (arith, effect key, bytes_eq_refl key, get_bytes_local G key ro db' local)
