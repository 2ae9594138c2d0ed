-- ===== src/Replicas.antt =====
-- fsm.go, db.go: the nodes of a cluster over one replicated log.
--
-- Raft commits entries to the log and hands them to each node's FSM in order. It has an FSM persist
-- a snapshot, which it labels with the entries that it had handed over before; another node
-- restores it, and is then handed the entries behind the label. A node that is opened again is
-- handed entries anew. Each of these is one step, on the store that Apply, Persist, Restore and Open
-- leave; the order of the steps is free.
--
-- `passed` is what Raft has handed to the FSM of a node. `lost` says that the FSM has failed to do
-- what it was asked: a command was not applied, or a restore failed.
pub mod Invariant
pub mod Moves
pub mod Agreement
pub mod Reads
use honeybadger.Base.{
  ℕ, Bytes, put, ◌≡◌, Bool, true, false, ◌||◌, not, Option, none, some, List, [], ◌∷◌, ◌++◌,
}
use honeybadger.Errors.{Error, Result, ok, err, done, is_ok}
use honeybadger.Badger.{Badger, TxnLaws, DiskLaws, Contents}
use honeybadger.Raft.{Raft}
use honeybadger.Command.{Command, LogEntry, Gob}
use honeybadger.Command.Effect.{after_log}
use honeybadger.Config.{Config}
use honeybadger.Node.{Node}
use honeybadger.Fsm.{apply}
use honeybadger.Fsm.Apply.{contents}
use honeybadger.Restore.{restore}
use honeybadger.Restore.Swap.{IsPlaced}
use honeybadger.Persist.{Sink, SinkLaws, persist}
use honeybadger.Db.{Db}
use honeybadger.Open.{Host, resolve_badger_options}
use honeybadger.Open.Reopened.{Reopened}

pub record Replica (B : Badger) : Type 0 where
  pub node : Node B
  pub world : B.World
  pub passed : List LogEntry
  pub lost : Bool

pub record Snapshot : Type 0 where
  pub label : List LogEntry
  pub content : Bytes
  pub tainted : Bool

pub record Cluster (B : Badger) : Type 0 where
  pub log : List LogEntry
  pub replicas : ℕ → Replica B
  pub snapshots : ℕ → Option Snapshot

module _ (G : Gob) where
  -- The commands of a log; an entry that does not decode has none.
  abbrev pub decoded_entry : LogEntry → List Command
  decoded_entry l = elim (G.decode l.content) [ ok c ↦ c ∷ [] | err _ ↦ [] ]

  abbrev pub decoded : List LogEntry → List Command
  decoded [] = []
  decoded (l ∷ ls) = decoded_entry l ++ decoded ls

  -- The specification: one store, to which the commands of the log are done one after another.
  abbrev pub effect : List LogEntry → Contents
  effect ls = after_log (decoded ls) (λ _. none)

  module _ (B : Badger) where
    -- Whether Apply fails to do a command.
    abbrev pub misses : LogEntry → Node B → Bool
    misses l n = elim (G.decode l.content) [ ok _ ↦ not (is_ok (apply G B l n).0) | err _ ↦ false ]

    -- Raft hands an entry over.
    abbrev pub deliver_entry : LogEntry → Replica B → Replica B
    deliver_entry l r = record {
      node = (apply G B l r.node).1;
      world = r.world;
      passed = r.passed ++ (l ∷ []);
      lost = r.lost || misses l r.node;
    }

module _ {B : Badger} {L : TxnLaws B} (D : DiskLaws B L) (G : Gob) {R : Raft} (H : Host B R)
    {K : Sink} (KL : SinkLaws K) where
  pub data Step (s : Cluster B) : Cluster B → Type 0 where
    commit : (l : LogEntry) → Step s (record s { log = s.log ++ (l ∷ []) })
    deliver :
        (i : ℕ) (l : LogEntry) (later : List LogEntry)
        → s.log ≡ (s.replicas i).passed ++ (l ∷ later)
        → Step s (record s { replicas = put s.replicas i (deliver_entry G B l (s.replicas i)) })
    -- Persist runs while entries behind the label are handed over
    snapshot :
        (i slot : ℕ) (label later : List LogEntry) (sink : K.State) (content : Bytes)
        → (s.replicas i).passed ≡ label ++ later
        → KL.written sink ≡ []
        → (persist K B (s.replicas i).node sink).0 ≡ done
        → KL.published (persist K B (s.replicas i).node sink).1 ≡ some content
        → Step s (record s {
          snapshots =
              put s.snapshots slot
                (some (record { label = label; content = content; tainted = (s.replicas i).lost }));
        })
    install :
        (i slot : ℕ) (snap : Snapshot)
        → s.snapshots slot ≡ some snap
        → IsPlaced D (s.replicas i).node
        → (restore B snap.content (s.replicas i).node (s.replicas i).world).0 ≡ ok tt
        → Step s (record s {
          replicas = put s.replicas i (record {
            node = (restore B snap.content (s.replicas i).node (s.replicas i).world).1;
            world = (restore B snap.content (s.replicas i).node (s.replicas i).world).2;
            passed = snap.label;
            lost = snap.tainted;
          });
        })
    install_fails :
        (i slot : ℕ) (snap : Snapshot) (e : Error)
        → s.snapshots slot ≡ some snap
        → (restore B snap.content (s.replicas i).node (s.replicas i).world).0 ≡ err e
        → Step s (record s {
          replicas = put s.replicas i (record {
            node = (restore B snap.content (s.replicas i).node (s.replicas i).world).1;
            world = (restore B snap.content (s.replicas i).node (s.replicas i).world).2;
            passed = (s.replicas i).passed;
            lost = true;
          });
        })
    -- Open over a disk that has kept what the node held, if that was right
    reopen :
        (i : ℕ) (cfg : Config B.Tuning) (w w' : B.World) (db : Db B R) (label later : List LogEntry)
        → (s.replicas i).passed ≡ label ++ later
        → ((s.replicas i).lost ≡ false
            → (k : Bytes)
            → D.on_disk w (resolve_badger_options G H cfg).dir k
              ≡ contents B L (s.replicas i).node k)
        → Reopened G H [] cfg w db
        → Step s (record s {
          replicas =
              put s.replicas i
                (record { node = db.node; world = w'; passed = label; lost = (s.replicas i).lost });
        })

  pub data Reach (s : Cluster B) : Cluster B → Type 0 where
    here : Reach s s
    next : {t u : Cluster B} → Reach s t → Step t u → Reach s u

-- A new cluster: nothing is committed, and no node holds anything.
pub record IsNew {B : Badger} (L : TxnLaws B) (s : Cluster B) : Type 0 where
  pub log_eq : s.log ≡ []
  pub passed_eq : (i : ℕ) → (s.replicas i).passed ≡ []
  pub empty : (i : ℕ) (k : Bytes) → contents B L (s.replicas i).node k ≡ none
  pub no_snapshot : (slot : ℕ) → s.snapshots slot ≡ none
