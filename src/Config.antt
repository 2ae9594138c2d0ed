-- ===== src/Config.antt =====
-- config.go, and the checks and the resolution of a configuration in db.go.
pub mod Defaults
use honeybadger.Base.{ℕ, ℤ, pos, is_positive, Bytes, is_empty, ◌==◌, Option, if◌then◌else◌}
use honeybadger.Errors.{Result, err, done, plain}
use honeybadger.Badger.{BadgerOptions}

-- `io.Writer`: nil, `io.Discard`, or a writer of the caller's.
pub data Writer : Type 0 where
  nil_writer discard : Writer
  writer : ℕ → Writer

pub record AdvancedConfig (Tuning : Type 0) : Type 0 where
  pub apply_timeout : ℤ
  pub snapshot_threshold : ℕ
  pub raft_advertise : Bytes
  pub badger_options : Option (BadgerOptions Tuning)
  pub log_output : Writer

pub record Config (Tuning : Type 0) : Type 0 where
  pub node_id : Bytes
  pub raft_bind : Bytes
  pub data_dir : Bytes
  pub advanced : AdvancedConfig Tuning

abbrev pub default_apply_timeout : ℤ
default_apply_timeout = pos 10_000_000_000

abbrev pub default_snapshot_threshold : ℕ
default_snapshot_threshold = 8192

abbrev pub or_discard : Writer → Writer
or_discard nil_writer = discard
or_discard w = w

module _ {T : Type 0} where
  -- `setDefaults`
  unfoldable pub set_defaults : Config T → Config T
  set_defaults c =
      let adv = c.advanced in
      record c {
        advanced = record adv {
          apply_timeout =
              if is_positive adv.apply_timeout then adv.apply_timeout else default_apply_timeout;
          snapshot_threshold =
              if adv.snapshot_threshold == 0
              then default_snapshot_threshold
              else adv.snapshot_threshold;
          log_output = or_discard adv.log_output;
        };
      }

  -- `validateConfig`
  unfoldable pub validate_config : Config T → Result (Unit {0})
  validate_config c =
      if is_empty c.node_id
      then err (plain "honeybadger: missing required Config.NodeID")
      else if is_empty c.raft_bind
      then err (plain "honeybadger: missing required Config.RaftBind")
      else if is_empty c.data_dir
      then err (plain "honeybadger: missing required Config.DataDir")
      else done
