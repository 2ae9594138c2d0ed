-- ===== src/Memory/Hosts.antt =====
-- The construction of a node in memory: the handles of the databases and the parts of Raft.
use honeybadger.Base.{
  suc, ◌-◌, Bytes, ◌++◌, ◌≡◌, refl, true, List, [], ◌∷◌, length, ◌==◌, ◌||◌, arith,
}
use honeybadger.Errors.{Error, Result, ok, err, done}
use honeybadger.Badger.{BadgerOptions, Stored}
use honeybadger.Handles.{HandleLaws}
use honeybadger.Command.{LogEntry}
use honeybadger.Open.{Host, FsmCall, apply_call}
use honeybadger.Open.Laws.{HostLaws}
use honeybadger.Memory.{MemoryDb, World, memory, next_fault, open_dir, put_dir, load_stream}
use honeybadger.Memory.Consensus.{consensus}

handles-next_fault : (w : World) → (next_fault w).1.handles ≡ w.handles
unfolding next_fault
handles-next_fault w = ground arith

pub handles-open_dir :
    (o : BadgerOptions (Unit {0})) (w : World) (d : MemoryDb)
    → (open_dir o w).0 ≡ ok d
    → (open_dir o w).1.handles ≡ suc w.handles
unfolding open_dir
handles-open_dir o w d h = ground (arith, handles-next_fault w)

pub handles-open_failed :
    (o : BadgerOptions (Unit {0})) (w : World) (e : Error)
    → (open_dir o w).0 ≡ err e
    → (open_dir o w).1.handles ≡ w.handles
unfolding open_dir
handles-open_failed o w e h = ground (arith, handles-next_fault w)

pub handles-put_dir :
    (p : Bytes) (items : List (Bytes × Stored)) (w : World)
    → (put_dir p items w).handles ≡ w.handles
unfolding put_dir
handles-put_dir p items w = refl

pub handles-load_stream :
    (d : MemoryDb) (s : Bytes) (w : World) → (load_stream d s w).2.handles ≡ w.handles
unfolding load_stream
handles-load_stream d s w = ground (arith, handles-next_fault w)

pub handles-closed : (d : MemoryDb) (w : World) → (memory.close d w).1.handles ≡ w.handles - 1
unfolding put_dir
handles-closed d w = refl

pub handles-renamed : (p q : Bytes) (w : World) → (memory.rename p q w).1.handles ≡ w.handles
unfolding put_dir
handles-renamed p q w = refl

abbrev pub memory_handles : HandleLaws memory
memory_handles = record {
  open_dbs = λ w. w.handles;
  open_dbs-open_db = handles-open_dir;
  open_dbs-open_failed = handles-open_failed;
  open_dbs-close = handles-closed;
  open_dbs-load = handles-load_stream;
  open_dbs-remove_all = λ p w. handles-put_dir p [] w;
  open_dbs-mkdir_all = λ p w. refl;
  open_dbs-rename = handles-renamed;
}

-- While a node is not called, Raft hands it the next entry of its backlog.
abbrev next_calls : List LogEntry → List FsmCall × List LogEntry
next_calls [] = ([], [])
next_calls (l ∷ ls) = (apply_call l ∷ [], ls)

-- Nothing of a node is built yet. Meanwhile the node that was bootstrapped alone comes to lead.
abbrev pub host : Host memory consensus
host = record {
  Addr = Bytes;
  join = λ p q. p ++ (47 ∷ q);
  resolve = λ addr c. (ok addr, c);
  default_options = λ dir. record { dir = dir; value_dir = dir; tuning = tt };
  new_bolt_store = λ path c.
      (done, let parts = c.parts in record c { parts = record parts { log_store = true } });
  new_snapshot_store = λ path retain out c. (done, c);
  new_transport = λ bind addr pool out c.
      (done, let parts = c.parts in record c { parts = record parts { transport = true } });
  bootstrap = λ rc server c. (done, record c { servers = server ∷ [] });
  new_raft = λ rc c.
      (done, [], let parts = c.parts in record c { parts = record parts { running = true } });
  meanwhile = λ c.
      let (calls, later) = next_calls c.backlog in
      (calls, record c { backlog = later; leads = c.leads || (length c.servers == 1) });
}

-- A constructor here returns nil.
pub never_fails : {P : Type 0} (e : Error) → ◌≡◌ {A = Result (Unit {0})} done (err e) → P
never_fails e h = absurd (ground arith)

abbrev pub host_laws : HostLaws host
host_laws = record {
  parts = λ c. c.parts;
  parts-resolve = λ addr c. refl;
  parts-bolt = λ path c h. refl;
  parts-bolt_failed = λ path c e h. never_fails e h;
  parts-snapshots = λ path retain out c. refl;
  parts-transport = λ bind addr pool out c h. refl;
  parts-transport_failed = λ bind addr pool out c e h. never_fails e h;
  parts-bootstrap = λ rc server c. refl;
  parts-new_raft = λ rc c h. refl;
  parts-new_raft_failed = λ rc c e h. never_fails e h;
  parts-meanwhile = λ c. refl;
  parts-shutdown = λ c. refl;
  parts-close_transport = λ c. refl;
  parts-close_log_store = λ c. refl;
}
