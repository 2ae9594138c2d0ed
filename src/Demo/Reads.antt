-- ===== src/Demo/Reads.antt =====
-- examples/three-node/main.go: what the waits of `demoReads` say of a follower that replays the
-- demo's log.
use honeybadger.Base.{
  ℕ, Bytes, codes, ◌≡◌, refl, sym, subst, ap, ◌∙◌, List, [], ◌++◌, some, true, arith, inl, inr, pos,
  nil_of_append-nil,
}
use mathlib.Core.List.{append-nil, append_assoc}
use honeybadger.Errors.{ok, Result-cases}
use honeybadger.Badger.{Badger, Stored, TxnLaws, ReadLaws, visible}
use honeybadger.Raft.{Raft}
use honeybadger.Command.{Command, Gob}
use honeybadger.Fsm.Apply.{contents}
use honeybadger.Node.{Node}
use honeybadger.Db.{Db}
use honeybadger.Read.{get_bytes}
use honeybadger.Read.Point.{get_bytes_local, read_clock, get_bytes_value}
use honeybadger.Open.{Host}
use honeybadger.Demo.{
  local_reads, demo_timeout, wait_rounds, sees_value, misses_key, Scene, meanwhile, polled, wait_on,
}
use honeybadger.Demo.Script.{View, read_later}
use honeybadger.Demo.Waits.{Yields, Yields-wait_for}
use honeybadger.Demo.Log.{demo_log, replayed, whole_of_user}

-- A follower that replays a log: `At cs` are the states in which it has replayed the commands `cs`.
-- While it is not called, Raft hands it some of the commands that come next.
pub record Replays (G : Gob) {B : Badger} (L : TxnLaws B) {R : Raft} (H : Host B R)
    (log : List Command) : Type 1 where
  pub At : List Command → Scene G H → Type 0
  pub At-contents :
      (cs : List Command) (db : Db B R) (w : B.World)
      → At cs (db, w)
      → (k : Bytes) → contents B L db.node k ≡ replayed cs k
  pub At-meanwhile :
      (cs later : List Command) (s : Scene G H)
      → cs ++ later ≡ log
      → At cs s
      → (more : List Command) × (rest : List Command) × (later ≡ more ++ rest)
        × At (cs ++ more) (meanwhile G H s)

pub contents_live :
    {B : Badger} (L : TxnLaws B) (n : Node B) (d : B.Db) (k : Bytes)
    → n.store ≡ some d
    → contents B L n k ≡ L.stored d k
contents_live L n d k live = ground arith

module _ (G : Gob) {B : Badger} (L : TxnLaws B) (Q : ReadLaws B L) {R : Raft} (H : Host B R)
    (expiry : ℕ) (F : Replays G L H (demo_log expiry)) where
  -- Part of the log is replayed; or all of it.
  abbrev pub IsBehind : Scene G H → Type 0
  IsBehind s =
      (cs : List Command) × (later : List Command) × (cs ++ later ≡ demo_log expiry) × F.At cs s

  abbrev pub IsWhole : Scene G H → Type 0
  IsWhole = F.At (demo_log expiry)

  meanwhile-IsBehind : (s : Scene G H) → IsBehind s → IsBehind (meanwhile G H s)
  meanwhile-IsBehind s (cs, later, split, at) =
      let (more, rest, same, at') = F.At-meanwhile cs later s split at in
      (cs ++ more, rest, append_assoc cs more rest ∙ ap (λ ds. cs ++ ds) (sym same) ∙ split, at')

  pub meanwhile-IsWhole : (s : Scene G H) → IsWhole s → IsWhole (meanwhile G H s)
  meanwhile-IsWhole s at =
      let log = demo_log expiry in
      let (more, rest, same, at') = F.At-meanwhile log [] s (append-nil log) at in
      let nothing : more ≡ [] = nil_of_append-nil more rest (sym same) in
      subst (λ ds. F.At ds (meanwhile G H s)) (ap (λ ds. log ++ ds) nothing ∙ append-nil log) at'

  -- A node that a local read has not changed.
  At-same :
      (cs : List Command) (db db' : Db B R) (w : B.World)
      → db' ≡ db
      → F.At cs (db, w)
      → F.At cs (db', w)
  At-same cs db db' w same at = subst (λ x. F.At cs (x, w)) (sym same) at

  -- What a local read of a value says of the log.
  get_bytes-replayed :
      (cs : List Command) (key : Bytes) (db : Db B R) (w : B.World) (b : Bytes)
      → F.At cs (db, w)
      → (get_bytes G key local_reads db).0 ≡ ok b
      → (now : ℕ) × (v : Stored) × (visible now (replayed cs key) ≡ some v)
  get_bytes-replayed cs key db w b at got =
      let (d, live, (v, seen, value)) = get_bytes_value B L Q R G key local_reads db b got in
      let same = get_bytes_local G key local_reads db refl in
      let there : db.node.store ≡ some d = ap (λ (x : Db B R). x.node.store) (sym same) ∙ live in
      let stored = contents_live L db.node d key there in
      (
        read_clock B L Q d,
        v,
        ap (visible (read_clock B L Q d)) (sym (F.At-contents cs db w at key) ∙ stored) ∙ seen,
      )

  -- The round of the first wait that sees user:2.
  sees_value-IsWhole :
      (value : Bytes) (db : Db B R) (w : B.World)
      → IsBehind (db, w)
      → (sees_value G (codes "user:2") value db).0 ≡ true
      → IsWhole ((sees_value G (codes "user:2") value db).1, w)
  unfolding sees_value
  sees_value-IsWhole value db w (cs, later, split, at) sees =
      elim (Result-cases (get_bytes G (codes "user:2") local_reads db).0) [
        | inr (e, failed) ↦ absurd (ground arith)
        | inl (b, got) ↦
            let (now, v, seen) = get_bytes-replayed cs (codes "user:2") db w b at got in
            let whole = whole_of_user expiry now v cs later split seen in
            At-same (demo_log expiry) db _ w
              (get_bytes_local G (codes "user:2") local_reads db refl)
              (subst (λ ds. F.At ds (db, w)) whole at)
      ]

  misses_key-IsWhole :
      (key : Bytes) (db : Db B R) (w : B.World)
      → IsWhole (db, w)
      → IsWhole ((misses_key G key db).1, w)
  unfolding misses_key
  misses_key-IsWhole key db w at =
      At-same (demo_log expiry) db _ w (get_bytes_local G key local_reads db refl) at

  -- A round of the first wait on a follower that may be behind.
  polled-IsBehind :
      (value : Bytes) (s : Scene G H)
      → IsBehind s
      → IsBehind (polled G H (sees_value G (codes "user:2") value) s).1
  unfolding polled sees_value
  polled-IsBehind value s behind =
      let (db, w) = meanwhile G H s in
      let (cs, later, split, at) = meanwhile-IsBehind s behind in
      (
        cs,
        later,
        split,
        At-same cs db _ w (get_bytes_local G (codes "user:2") local_reads db refl) at,
      )

  pub first_wait-Yields :
      (view : View) (s : Scene G H)
      → IsBehind s
      → Yields
          (λ _. IsWhole)
          (wait_on G H (sees_value G (codes "user:2") (codes "grace")) view.replicates s)
  unfolding polled
  first_wait-Yields view s behind =
      Yields-wait_for (polled G H (sees_value G (codes "user:2") (codes "grace"))) IsBehind
        (polled-IsBehind (codes "grace")) IsWhole
        (λ s' behind' holds.
          let later = meanwhile G H s' in
          sees_value-IsWhole (codes "grace") later.0 later.1 (meanwhile-IsBehind s' behind') holds)
        wait_rounds (pos demo_timeout) view.replicates s behind

  pub second_wait-Yields :
      (view : View) (s : Scene G H)
      → IsWhole s
      → Yields (λ _. IsWhole) (wait_on G H (misses_key G (codes "user:1")) view.deletes s)
  unfolding polled
  second_wait-Yields view s whole =
      let keeps : (s' : Scene G H)
          → IsWhole s'
          → IsWhole (polled G H (misses_key G (codes "user:1")) s').1 =
        λ s' whole'.
          let later = meanwhile G H s' in
          misses_key-IsWhole (codes "user:1") later.0 later.1 (meanwhile-IsWhole s' whole') in
      Yields-wait_for (polled G H (misses_key G (codes "user:1"))) IsWhole keeps IsWhole
        (λ s' whole' holds. keeps s' whole') wait_rounds (pos demo_timeout) view.deletes s whole

  pub read_later-Yields :
      (key : Bytes) (s : Scene G H) → IsWhole s → Yields (λ _. IsWhole) (read_later G H key s)
  unfolding read_later
  read_later-Yields key s whole =
      let later = meanwhile G H s in
      let whole' : IsWhole ((get_bytes G key local_reads later.0).1, later.1) =
        At-same (demo_log expiry) later.0 _ later.1 (get_bytes_local G key local_reads later.0 refl)
          (meanwhile-IsWhole s whole) in
      elim (Result-cases (get_bytes G key local_reads later.0).0) [
        | inl (b, got) ↦ rw got whole'
        | inr (e, failed) ↦ rw failed tt
      ]
