-- ===== src/Open/Laws.antt =====
-- What the parts of a node document of opening and closing, and what `Open` holds at each point.
use honeybadger.Base.{ℕ, ◌≡◌, Bytes, Bool, true, false, Option}
use honeybadger.Errors.{Error, ok, err}
use honeybadger.Badger.{Badger}
use honeybadger.Raft.{Raft, Server}
use honeybadger.Config.{Writer}
use honeybadger.Handles.{HandleLaws, IsBalanced}
use honeybadger.Open.{Host, RaftConfig, Opening, Exit, opened, waiting, failed, gave_up}

-- What a node holds of Raft: an open log store, a listening transport, a running Raft.
pub record Parts : Type 0 where
  pub log_store : Bool
  pub transport : Bool
  pub running : Bool

-- What Raft and its stores document: a constructor that returns nil has acquired its part, one that
-- fails none, and a Close or Shutdown gives its part up, also where it returns an error.
pub record HostLaws {B : Badger} {R : Raft} (H : Host B R) : Type 0 where
  pub parts : R.State → Parts
  pub parts-resolve : (addr : Bytes) (r : R.State) → parts (H.resolve addr r).1 ≡ parts r
  pub parts-bolt :
      (path : Bytes) (r : R.State)
      → (H.new_bolt_store path r).0 ≡ ok tt
      → parts (H.new_bolt_store path r).1 ≡ record (parts r) { log_store = true }
  pub parts-bolt_failed :
      (path : Bytes) (r : R.State) (e : Error)
      → (H.new_bolt_store path r).0 ≡ err e
      → parts (H.new_bolt_store path r).1 ≡ parts r
  pub parts-snapshots :
      (path : Bytes) (retain : ℕ) (out : Writer) (r : R.State)
      → parts (H.new_snapshot_store path retain out r).1 ≡ parts r
  pub parts-transport :
      (bind : Bytes) (addr : Option H.Addr) (pool : ℕ) (out : Writer) (r : R.State)
      → (H.new_transport bind addr pool out r).0 ≡ ok tt
      → parts (H.new_transport bind addr pool out r).1 ≡ record (parts r) { transport = true }
  pub parts-transport_failed :
      (bind : Bytes) (addr : Option H.Addr) (pool : ℕ) (out : Writer) (r : R.State) (e : Error)
      → (H.new_transport bind addr pool out r).0 ≡ err e
      → parts (H.new_transport bind addr pool out r).1 ≡ parts r
  pub parts-bootstrap :
      (c : RaftConfig) (server : Server) (r : R.State) → parts (H.bootstrap c server r).1 ≡ parts r
  pub parts-new_raft :
      (c : RaftConfig) (r : R.State)
      → (H.new_raft c r).0 ≡ ok tt
      → parts (H.new_raft c r).2 ≡ record (parts r) { running = true }
  pub parts-new_raft_failed :
      (c : RaftConfig) (r : R.State) (e : Error)
      → (H.new_raft c r).0 ≡ err e
      → parts (H.new_raft c r).2 ≡ parts r
  pub parts-meanwhile : (r : R.State) → parts (H.meanwhile r).1 ≡ parts r
  pub parts-shutdown : (r : R.State) → parts (R.shutdown r).1 ≡ record (parts r) { running = false }
  pub parts-close_transport :
      (r : R.State) → parts (R.close_transport r).1 ≡ record (parts r) { transport = false }
  pub parts-close_log_store :
      (r : R.State) → parts (R.close_log_store r).1 ≡ record (parts r) { log_store = false }

abbrev pub no_parts : Parts
no_parts = record { log_store = false; transport = false; running = false }

abbrev pub all_parts : Parts
all_parts = record { log_store = true; transport = true; running = true }

module _ {B : Badger} {R : Raft} {H : Host B R} (D : HandleLaws B) (P : HostLaws H) where
  -- What a part of `Open` leaves: all is open where it returns a node, `armed` and the node's store
  -- where cleanups are still due, and nothing where `Close` has done its work.
  abbrev pub Ends : ℕ → Parts → Exit × Opening B R → Type 0
  Ends others armed (opened, o) = (P.parts o.raft ≡ all_parts) × IsBalanced D others o.node o.world
  Ends others armed (failed e, o) = (P.parts o.raft ≡ armed) × IsBalanced D others o.node o.world
  Ends others armed (gave_up e, o) = (P.parts o.raft ≡ no_parts) × (D.open_dbs o.world ≡ others)
  Ends others armed (waiting, o) = Unit

  pub Ends-subst :
      (others : ℕ) (armed : Parts) (x y : Exit × Opening B R)
      → x ≡ y
      → Ends others armed y
      → Ends others armed x
  Ends-subst others armed x y e ends = rw e ends
