-- ===== src/Lib.antt =====
-- honeybadger: an embedded key-value store that is replicated by Raft and kept in Badger.
--
-- Every write is turned into a command, passes through the Raft log, and is applied by each node's
-- FSM to its own Badger database; reads run on the local database, behind a barrier of Raft where
-- they are linearizable. Snapshots of the database stand in for a prefix of the log.
--
-- The files, and the code that they are about (paths from the repository's root):
--   Base, Base/*      shared names, lists, signed integers, byte strings with their order
--   Errors            types.go: the errors and `errors.Is`, `errors.Join`
--   Options           options.go; `absExpiry` of write.go and `parseOpenOptions` of db.go
--   Command           fsm.go: `commandPair`, `command`; Command/Effect is their meaning as
--                     blind writes, stated apart from the code
--   Batch             write.go: the commands that `SetBytes`, `DeleteBytes` and `Batch` build
--   Badger            what the code uses of Badger and the operating system, as parameters
--   Raft              what the code uses of Raft, its transport and its log store, as a parameter
--   Config            config.go; `validateConfig` of db.go
--   Node              db.go: the state under `storeMu` and the guards over the store
--   Db                db.go: `DB` as a whole, `apply` and `notLeaderErr`
--   Fsm               fsm.go: `Apply`; Fsm/Replay is about snapshots that overlap the log
--   Restore           fsm.go: `Restore` with its staged swap and its path in place
--   Persist           fsm.go: `Persist`; Persist/Transfer follows a snapshot to another node
--   Handles           fsm.go, db.go: which databases `Restore` and `closeStore` leave open
--   Open              db.go: `Open` with its deferred cleanups; its children are about what it
--                     leaves open, that it returns, and how a stopped node comes back
--   Write             write.go: the write calls, from the arguments through Raft to the FSM
--   Read              read.go: reads with their consistency modes, scans, the raw view, the barrier
--   Cluster           cluster.go: membership, snapshots, the wait for a leader
--   Status            status.go: `Status` and `RawRaftStats`, and the states of types.go
--   Texts             types.go, options.go: the texts of `NotLeaderError`, `NodeRole`, `State` and
--                     `ReadMode`
--   Close             db.go: `Close`
--   Api               the calls of write.go, read.go, cluster.go and status.go as one type: after
--                     `Close`, and on a node that does not lead
--   Locks             db.go, fsm.go: `storeMu` and the `closed` flag over threads that take turns;
--                     Locks/Atomicity is the specification, a history of undivided calls
--   Replicas          fsm.go, db.go: several nodes over one log, with what Raft hands to each of
--                     them as the steps of a relation; Replicas/Reads is about read.go's reads
--   ThreeNode         examples/three-node/main.go: the boot of the demo, its cleanup, its writes
--   Demo              examples/three-node/main.go: the joins, the reads, the waits, the whole run
--   Memory            an implementation of the parameters in memory, for the tests
--   Tests             runs and the theorems at concrete inputs
--
-- Badger, Raft, gob, the disk and the clock are not code of this repository. They are parameters:
-- records of operations (`Badger`, `Raft`, `Host`, `Sink`, `Gob`, `Net`), clock readings as
-- arguments, and records of the laws that their documentation states (`TxnLaws`, `ReadLaws`,
-- `DiskLaws`, `RaftLaws`, `SinkLaws`, `GobLaws`, `HandleLaws`, `HostLaws`, `CallLaws`). Memory shows
-- that the laws can hold together. A call of Raft that waits for the FSM also says which log entries the
-- FSM applied meanwhile, and the node applies these before it goes on: so the entries of other
-- writers stand where they take effect.
--
-- State is passed explicitly. A call that holds `storeMu` exclusively (the swap of a restore, a
-- close) is one step, and so is a call that holds it shared and uses the store once. Locks takes
-- these calls apart into their accesses, which the steps of other threads may come between. What
-- stands outside `storeMu` is no step there: the staging of a restore, which works on a directory
-- of its own, and the applied index that `Apply` stores, since Raft runs one call of the FSM at a
-- time. `sync.RWMutex` is its two rules of exclusion, without the order in which waiting threads
-- are served. Numbers are natural numbers; a `time.Duration` is an integer; the conversion to
-- `uint64` in `absExpiry` is written out with its wrap-around. `wait_loop` and the demo's
-- `wait_for_loop` run on fuel, one unit for each poll: one more than the poll intervals that make
-- up the timeout is enough, if each sleep takes at least the poll interval. The decimal text of a
-- number is built on fuel too: 20 digits, which are enough for 64 bits.
--
-- Not modelled: what examples/three-node only prints, and the tests.
--
-- Byte strings are lists of numbers, for Go's `string` and `[]byte` alike, so that copies
-- (`bytes.Clone`, `slices.Clone`) are the identity. The texts of errors are kept where they tell
-- one branch from another; the values that `fmt` would print into them are dropped, except
-- indices.
mod Base
pub mod Errors
pub mod Command
pub mod Api
pub mod Badger
pub mod Node
pub mod Fsm
pub mod Restore
pub mod Raft
pub mod Config
pub mod Db
pub mod Write
pub mod Read
pub mod Close
pub mod Cluster
pub mod Status
pub mod Texts
pub mod ThreeNode
pub mod Demo
pub mod Persist
pub mod Handles
pub mod Open
pub mod Locks
pub mod Replicas
pub mod Options
pub mod Batch
pub mod Memory
mod Tests
