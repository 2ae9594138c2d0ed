-- ===== src/Tests/Data.antt =====
-- Nodes, entries and snapshots for the tests.
use honeybadger.Base.{Bytes, codes, true, false, some, [], ◌∷◌}
use honeybadger.Badger.{BadgerOptions, Stored}
use honeybadger.Command.{Command, LogEntry}
use honeybadger.Node.{Node}
use honeybadger.Memory.{MemoryDb, World, memory}
use honeybadger.Memory.Stream.{encode_items}
use honeybadger.Memory.Codec.{write_pairs, write_deletes}

abbrev pub a : Bytes
a = codes "a"

abbrev pub b : Bytes
b = codes "b"

abbrev pub one : Stored
one = record { value = codes "1"; expires_at = 0 }

abbrev pub two : Stored
two = record { value = codes "2"; expires_at = 1_900_000_000 }

abbrev pub live_dir : Bytes
live_dir = codes "/d/badger"

abbrev pub live : MemoryDb
live = record { home = live_dir; items = (a, one) ∷ [] }

abbrev pub options : BadgerOptions (Unit {0})
options = record { dir = live_dir; value_dir = live_dir; tuning = tt }

-- A node that holds `a` and has applied entry 3.
abbrev pub node : Node memory
node = record {
  store = some live;
  badger_opts = options;
  badger_dir = live_dir;
  applied_index = 3;
  closed = false;
  log_lines = [];
}

-- The same with the value log elsewhere.
abbrev pub split_node : Node memory
split_node = record node { badger_opts = record options { value_dir = codes "/v" } }

abbrev pub quiet : World
quiet = record { disk = []; faults = []; handles = 1 }

-- The second Open fails: that of the restored database.
abbrev pub faulty : World
faulty = record { disk = []; faults = false ∷ false ∷ true ∷ []; handles = 1 }

-- The first Open fails.
abbrev pub broken : World
broken = record { disk = []; faults = true ∷ []; handles = 1 }

abbrev pub set_b : Command
set_b = record {
  pairs = record { key = b; value = codes "2"; expires_at_unix = 1_900_000_000 } ∷ [];
  deletes = [];
}

abbrev pub drop_a : Command
drop_a = record { pairs = []; deletes = a ∷ [] }

-- The log entry of a command.
unfoldable pub content : Command → Bytes
unfolding write_pairs write_deletes
content c = write_pairs c.pairs (write_deletes c.deletes)

unfoldable pub entry_set : LogEntry
entry_set = record { index = 4; content = content set_b }

unfoldable pub entry_drop : LogEntry
entry_drop = record { index = 6; content = content drop_a }

-- An entry that does not decode.
abbrev pub entry_bad : LogEntry
entry_bad = record { index = 5; content = 9 ∷ [] }

-- The backup of a database that holds `b`.
unfoldable pub snap : Bytes
unfolding encode_items
snap = encode_items ((b, two) ∷ [])
