-- ===== src/Open/Recovery.antt =====
-- db.go, fsm.go: a node that is opened again, over what an earlier run left.
use honeybadger.Base.{
  ℕ, ◌≡◌, ◌∙◌, Bytes, refl, sym, ap, subst, Bool, List, [], ◌∷◌, ◌++◌, map, Option, some, none,
  arith,
}
use honeybadger.Errors.{Result, ok}
use honeybadger.Badger.{Badger, Stored, TxnLaws, DiskLaws}
use honeybadger.Raft.{Raft}
use honeybadger.Command.{LogEntry, Gob}
use honeybadger.Config.{Config, set_defaults}
use honeybadger.Options.{OpenOption, parse_open_options}
use honeybadger.Node.{Node}
use honeybadger.Fsm.{apply_log}
use honeybadger.Fsm.Apply.{contents, applied_log}
use honeybadger.Fsm.Replay.{apply_log_append, replay_converges}
use honeybadger.Restore.{restore}
use honeybadger.Restore.Swap.{IsPlaced}
use honeybadger.Restore.Outcome.{restore_ok}
use honeybadger.Db.{Db}
use honeybadger.Cluster.{Poll}
use honeybadger.Open.{
  Host, FsmCall, apply_call, restore_call, run_calls, open_db, resolve_badger_options, fresh_node,
}
use honeybadger.Open.FsmCalls.{node-run_calls}
use honeybadger.Open.Ran.{at, made_raft_dir, open_calls}
use honeybadger.Open.Reopened.{Reopened, open_db-Reopened}

module _ (B : Badger) (L : TxnLaws B) (D : DiskLaws B L) (G : Gob) {R : Raft} (H : Host B R) where
  -- The database that Open opens, and the disk after that.
  abbrev pub store_at : Config B.Tuning → B.World → Result B.Db × B.World
  store_at cfg w =
      let opts = resolve_badger_options G H cfg in B.open_db opts (B.mkdir_all opts.dir w).1

  -- What Raft asks of the FSM when it starts: a restore of its newest snapshot, if it has one.
  abbrev pub start_calls : Option Bytes → List FsmCall
  start_calls none = []
  start_calls (some snap) = restore_call snap ∷ []

  -- What a node starts from: the database that is on the disk, or the snapshot.
  abbrev pub left_behind : Option Bytes → Config B.Tuning → B.World → Bytes → Option Stored
  left_behind none cfg w = D.on_disk w (resolve_badger_options G H cfg).dir
  left_behind (some snap) cfg w = D.snapshot snap

  -- The restore of the snapshot, if there is one, succeeds on the node that was just opened.
  abbrev pub Restores : Option Bytes → Config B.Tuning → B.World → Type 0
  Restores none cfg w = Unit
  Restores (some snap) cfg w =
      let opts = resolve_badger_options G H cfg in
      let store = store_at cfg w in
      (d : B.Db)
      → store.0 ≡ ok d
      → IsPlaced D (fresh_node opts d)
        × ((restore B snap (fresh_node opts d) (made_raft_dir G H cfg store.1)).0 ≡ ok tt)

  pub contents-Reopened :
      (found : Option Bytes) (cfg : Config B.Tuning) (w : B.World) (db : Db B R)
      → Restores found cfg w
      → Reopened G H (start_calls found) cfg w db
      → (k : Bytes) → contents B L db.node k ≡ left_behind found cfg w k
  unfolding run_calls
  contents-Reopened none cfg w db restores (d, (opens, (r, same))) k =
      let opts = resolve_badger_options G H cfg in
      let made = (B.mkdir_all opts.dir w).1 in
      rw same (D.open_reads opts made d k opens ∙ D.mkdir_all_frame opts.dir opts.dir w k)
  contents-Reopened (some snap) cfg w db restores (d, (opens, (r, same))) k =
      let opts = resolve_badger_options G H cfg in
      let store = B.open_db opts (B.mkdir_all opts.dir w).1 in
      let (placed, restored) = restores d opens in
      let (d', live, reset, home, holds) =
        restore_ok B L D snap (fresh_node opts d) (made_raft_dir G H cfg store.1) placed restored in
      rw same (ground (arith, holds k))

  -- The node that Open starts from: the one over the database that it opened, as the restore of the
  -- snapshot leaves it where there is one.
  abbrev pub restored_node : Option Bytes → Config B.Tuning → B.World → B.Db → Node B
  restored_node none cfg w d = fresh_node (resolve_badger_options G H cfg) d
  restored_node (some snap) cfg w d =
      (restore B snap (fresh_node (resolve_badger_options G H cfg) d)
        (made_raft_dir G H cfg (store_at cfg w).1)).1

  -- After the start, Raft hands the node the entries `replayed` before Open returns.
  node-Reopened :
      (found : Option Bytes) (replayed : List LogEntry) (cfg : Config B.Tuning) (w : B.World)
      (db : Db B R)
      → Reopened G H (start_calls found ++ map apply_call replayed) cfg w db
      → (d : B.Db) × (((store_at cfg w).0 ≡ ok d)
          × (db.node ≡ apply_log G B replayed (restored_node found cfg w d)))
  unfolding run_calls
  node-Reopened none replayed cfg w db (d, (opens, (r, same))) =
      let o =
        at G H (fresh_node (resolve_badger_options G H cfg) d)
          (made_raft_dir G H cfg (store_at cfg w).1) r in
      (d, (opens, same ∙ node-run_calls G replayed o))
  node-Reopened (some snap) replayed cfg w db (d, (opens, (r, same))) =
      let o =
        at G H (fresh_node (resolve_badger_options G H cfg) d)
          (made_raft_dir G H cfg (store_at cfg w).1) r in
      (d, (opens, same ∙ node-run_calls G replayed (run_calls G (restore_call snap ∷ []) o)))

  contents-restored_node :
      (found : Option Bytes) (cfg : Config B.Tuning) (w : B.World) (d : B.Db) (db : Db B R)
      → Restores found cfg w
      → (store_at cfg w).0 ≡ ok d
      → (k : Bytes) → contents B L (restored_node found cfg w d) k ≡ left_behind found cfg w k
  unfolding run_calls
  contents-restored_node none cfg w d db restores opens =
      contents-Reopened none cfg w (record db { node = restored_node none cfg w d }) restores
        (d, (opens, (db.raft, refl)))
  contents-restored_node (some snap) cfg w d db restores opens =
      contents-Reopened (some snap) cfg w (record db { node = restored_node (some snap) cfg w d })
        restores (d, (opens, (db.raft, refl)))

  -- A node that stopped at any point comes back, with the NewCluster option or without. Let `n` be
  -- the state that the newest snapshot is labelled with, or the first state where there is none,
  -- and let what Open finds, the snapshot or else the database on the disk, hold the contents of
  -- `n` after the entries `overlap`. Let an Open return a node, during which Raft asks the FSM, from
  -- the state that Open hands it, for a restore of the snapshot, if there is one, that succeeds on
  -- directories that lie as `IsPlaced` says, and then for the entries `replayed`. After the entries
  -- `later`, which complete the log `overlap` and `rest`, the node holds what `n` holds after the
  -- same log, if the same entries succeed on both. A snapshot wins over whatever is on the disk.
  pub open_db_recovers :
      (found : Option Bytes) (config : Config B.Tuning) (options : List OpenOption)
      (new_cluster : Bool) (start : ℕ) (polls : ℕ → Poll) (r : R.State) (w : B.World) (db : Db B R)
      (r' : R.State) (w' : B.World) (d : B.Db) (overlap rest replayed later : List LogEntry)
      (n : Node B)
      → parse_open_options options ≡ ok new_cluster
      → open_calls G H (set_defaults config) new_cluster r
        ≡ start_calls found ++ map apply_call replayed
      → open_db G H config options start polls r w ≡ some (ok db, r', w')
      → (store_at (set_defaults config) w).0 ≡ ok d
      → Restores found (set_defaults config) w
      → ((k : Bytes)
          → left_behind found (set_defaults config) w k ≡ contents B L (apply_log G B overlap n) k)
      → replayed ++ later ≡ overlap ++ rest
      → applied_log B L G (overlap ++ rest) (restored_node found (set_defaults config) w d)
        ≡ applied_log B L G (overlap ++ rest) n
      → (k : Bytes)
      → contents B L (apply_log G B later db.node) k
        ≡ contents B L (apply_log G B (overlap ++ rest) n) k
  open_db_recovers found config options new_cluster start polls r w db r' w' d overlap rest replayed
        later n read asked opens live restores held whole same k =
      let cfg = set_defaults config in
      let (d', (opens', node_eq)) = node-Reopened found replayed cfg w db (
        subst (λ calls. Reopened G H calls cfg w db) asked
          (open_db-Reopened G H start polls db r' w' new_cluster config options r w read opens)) in
      let m = restored_node found cfg w d in
      let d_eq : d' ≡ d = ground (arith, opens', live) in
      let now : apply_log G B later db.node ≡ apply_log G B (overlap ++ rest) m =
        ap (apply_log G B later)
          (node_eq ∙ ap (λ x. apply_log G B replayed (restored_node found cfg w x)) d_eq)
        ∙ sym (apply_log_append B L G replayed later m)
        ∙ ap (λ ls. apply_log G B ls m) whole in
      ap (λ (x : Node B). contents B L x k) now
      ∙ replay_converges B L G overlap rest n m
          (λ k. contents-restored_node found cfg w d db restores live k ∙ held k) same k
