-- ===== src/ThreeNode.antt =====
-- examples/three-node/main.go: the boot of the demo, its cleanup, and its writes. The rest of the
-- demo is Demo.
--
-- Each node has its own view of Raft and its own clock, so a run is given the state of Raft from
-- which each node starts and what each wait observes; the disk is shared. Messages on the standard
-- output are left out.
pub mod Boot
pub mod Writes
use honeybadger.Base.{
  ℕ, zero, suc, ℤ, pos, Bytes, codes, ◌++◌, format_uint, List, [], ◌∷◌, Option, none, some, Bool,
  true, false, not, if◌then◌else◌,
}
use honeybadger.Errors.{Error, Result, ok, err, done, wrap, plain}
use honeybadger.Badger.{Badger}
use honeybadger.Raft.{Raft}
use honeybadger.Command.{Gob}
use honeybadger.Config.{Config, nil_writer}
use honeybadger.Options.{
  OpenOption, new_cluster_option, SetOption, with_ttl, Mutation, set_bytes_op, delete_bytes_op,
  add_duration,
}
use honeybadger.Cluster.{Poll, before}
use honeybadger.Status.{State, state_leader, status}
use honeybadger.Db.{Db}
use honeybadger.Write.{set_bytes, batch}
use honeybadger.Close.{close}
use honeybadger.Open.{Host, open_db}

-- What `freePort` calls of package net.
pub record Net : Type 1 where
  pub State : Type 0
  pub Listener : Type 0
  pub listen : Bytes → State → Result Listener × State
  pub port : Listener → ℕ
  pub close_listener : Listener → State → State

-- `freePort`
unfoldable pub free_port : (N : Net) → N.State → Result ℕ × N.State
free_port N s =
    let (listening, s') = N.listen (codes "127.0.0.1:0") s in
    elim listening [
      | err e ↦ (err (wrap "find free port" e), s')
      | ok l ↦ (ok (N.port l), N.close_listener l s')
    ]

-- What the surroundings of the node with a given position are and do.
pub record Site (R : Raft) : Type 0 where
  pub raft : R.State
  pub start : ℕ
  pub polls : ℕ → Poll

-- The state of a boot: the nodes that are open, newest first, with the network and the disk.
-- `closed_rafts` is Raft's state of the nodes that are closed, and of an Open that failed.
pub record Fleet (B : Badger) (R : Raft) (N : Net) : Type 0 where
  pub nodes : List (Db B R)
  pub closed_rafts : List R.State
  pub net : N.State
  pub world : B.World

module _ {B : Badger} {R : Raft} where
  abbrev pub demo_config : Host B R → Bytes → Bytes → ℕ → Config B.Tuning
  demo_config H root id port = record {
    node_id = id;
    raft_bind = codes "127.0.0.1:" ++ format_uint port;
    data_dir = H.join root id;
    advanced = record {
      apply_timeout = pos 0;
      snapshot_threshold = 0;
      raft_advertise = [];
      badger_options = none;
      log_output = nil_writer;
    };
  }

  -- The loop of `cleanup`, from the newest node to the oldest.
  unfoldable pub close_nodes : List (Db B R) → List R.State → B.World → List R.State × B.World
  close_nodes [] rafts w = (rafts, w)
  close_nodes (db ∷ nodes) rafts w =
      let (result, db', w') = close db w in close_nodes nodes (db'.raft ∷ rafts) w'

  unfoldable pub cleanup : {N : Net} → Fleet B R N → Fleet B R N
  cleanup f =
      let (rafts, w) = close_nodes f.nodes f.closed_rafts f.world in
      record f { nodes = []; closed_rafts = rafts; world = w }

  -- The first node alone is opened with NewCluster.
  abbrev pub demo_options : List (Db B R) → List OpenOption
  demo_options [] = new_cluster_option ∷ []
  demo_options (db ∷ nodes) = []

-- How `bootNodes` ends: it returns, or it calls a nil function.
pub data Ending : Type 0 where
  returned : Result (Unit {0}) → Ending
  panicked : Ending

module _ {B : Badger} {R : Raft} {N : Net} where
  -- The deferred call of `bootNodes`, over the result variables `cleanup` and `err` as they are when
  -- it runs.
  abbrev pub deferred_cleanup :
      Option (Fleet B R N → Fleet B R N) → Result (Unit {0}) → Fleet B R N → Ending × Fleet B R N
  deferred_cleanup cleanup (ok _) f = (returned done, f)
  deferred_cleanup (some cleanup) (err e) f = (returned (err e), cleanup f)
  deferred_cleanup none (err e) f = (panicked, f)

  -- `return nil, nil, nil, nil, err`, which sets `cleanup` to nil before the deferred call runs.
  abbrev pub return_failed : Error → Fleet B R N → Ending × Fleet B R N
  return_failed e = deferred_cleanup none (err e)

  -- `return nodes, ids, addrs, cleanup, nil`
  abbrev pub return_booted : Fleet B R N → Ending × Fleet B R N
  return_booted = deferred_cleanup (some cleanup) done

module _ (G : Gob) {B : Badger} {R : Raft} (H : Host B R) (N : Net) where
  -- The loop of `bootNodes` over the identifiers and their sites; `none` where an Open still waits.
  unfoldable pub boot_loop :
      Bytes → List (Bytes × Site R) → Fleet B R N → Option (Ending × Fleet B R N)
  boot_loop root [] f = some (return_booted f)
  boot_loop root ((id, site) ∷ sites) f =
      let (ported, net) = free_port N f.net in
      let f' : Fleet B R N = record f { net = net } in
      elim ported [
        | err e ↦ some (return_failed e f')
        | ok port ↦
            elim (open_db G H (demo_config H root id port) (demo_options f.nodes) site.start
              site.polls site.raft f.world) [
                | none ↦ none
                | some (err e, r, w) ↦ some (
                    return_failed (wrap "open node" e)
                      (record f' { closed_rafts = r ∷ f.closed_rafts; world = w }))
                | some (ok db, r, w) ↦
                    boot_loop root sites (record f' { nodes = db ∷ f.nodes; world = w })
              ]
      ]

  -- `bootNodes`
  unfoldable pub boot_nodes :
      Bytes → Site R → Site R → Site R → N.State → B.World → Option (Ending × Fleet B R N)
  boot_nodes root first second third net w =
      boot_loop root
        ((codes "node-1", first) ∷ (codes "node-2", second) ∷ (codes "node-3", third) ∷ [])
        (record { nodes = []; closed_rafts = []; net = net; world = w })

module _ (G : Gob) {B : Badger} {R : Raft} where
  -- `demoWrites`; each call has its own readings of the clock.
  unfoldable pub demo_writes : (ℕ → ℕ) → (ℕ → ℕ) → (ℕ → ℕ) → Db B R → Result (Unit {0}) × Db B R
  demo_writes now₁ now₂ now₃ leader =
      let (set_user, db₁) = set_bytes G now₁ (codes "user:1") (codes "ada") [] leader in
      elim set_user [
        | err e ↦ (err e, db₁)
        | ok _ ↦
            let (set_session, db₂) =
              set_bytes G now₂ (codes "session:xyz") (codes "token-123")
                (with_ttl (pos 2_000_000_000) ∷ []) db₁ in
            elim set_session [
              | err e ↦ (err e, db₂)
              | ok _ ↦
                  batch G now₃
                    (set_bytes_op (codes "user:2") (codes "grace") []
                      ∷ set_bytes_op (codes "user:3") (codes "edsger") []
                      ∷ delete_bytes_op (codes "user:1")
                      ∷ [])
                    db₂
            ]
      ]
