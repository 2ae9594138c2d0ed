-- ===== src/Tests/NodeData.antt =====
-- The nodes of the API tests: a leader, a follower and a stopped node.
use honeybadger.Base.{ℕ, codes, pos, ◌≡◌, refl, true, false, none, List, [], ◌∷◌}
use honeybadger.Errors.{ok}
use honeybadger.Command.{Command}
use honeybadger.Open.Laws.{all_parts}
use honeybadger.Raft.{voter}
use honeybadger.Config.{Config, discard}
use honeybadger.Options.{
  SetOption, ttl_option, ReadOptions, read_local, read_linearizable, ScanOptions,
  resolve_set_options, resolve_loop, abs_expiry,
}
use honeybadger.Batch.{set_command}
use honeybadger.Db.{Db}
use honeybadger.Write.{set_bytes}
use honeybadger.Memory.{memory}
use honeybadger.Memory.Codec.{codec}
use honeybadger.Memory.Consensus.{Cluster, consensus}
use honeybadger.Tests.Data.{b, node}

abbrev pub cluster : Cluster
cluster = record {
  leads = true;
  last_index = 3;
  servers = record { suffrage = voter; id = codes "n1"; address = codes "10.0.0.1:1" } ∷ [];
  backlog = [];
  parts = all_parts;
}

abbrev pub config : Config (Unit {0})
config = record {
  node_id = codes "n1";
  raft_bind = codes "10.0.0.1:1";
  data_dir = codes "/d";
  advanced = record {
    apply_timeout = pos 10_000_000_000;
    snapshot_threshold = 8192;
    raft_advertise = [];
    badger_options = none;
    log_output = discard;
  };
}

-- The leader, open, with `a` in its store.
abbrev pub leader : Db memory consensus
leader = record { node = node; raft = cluster; cfg = config; close_result = none }

abbrev pub follower : Db memory consensus
follower = record leader { raft = record cluster { leads = false } }

abbrev pub stopped : Db memory consensus
stopped = record leader { node = record node { closed = true; store = none } }

abbrev pub clock : ℕ → ℕ
clock i = 1_700_000_000_500_000_000

abbrev pub opts : List SetOption
opts = ttl_option (pos 200_000_000_000_000_000) ∷ []

abbrev pub local : ReadOptions
local = record { mode = read_local; timeout = pos 0 }

abbrev pub linearizable : ReadOptions
linearizable = record { mode = read_linearizable; timeout = pos 0 }

abbrev pub scan : ScanOptions
scan = record { read = linearizable; limit = pos 0; unlimited = false }

abbrev pub wrote : Db memory consensus
wrote = (set_bytes codec clock b (codes "2") opts leader).1

abbrev pub built : Command
built = record {
  pairs = record { key = b; value = codes "2"; expires_at_unix = 1_900_000_000 } ∷ [];
  deletes = [];
}

pub accepted_b : set_command (clock 0) b (codes "2") opts ≡ ok built
unfolding set_command resolve_set_options resolve_loop abs_expiry
accepted_b = refl
