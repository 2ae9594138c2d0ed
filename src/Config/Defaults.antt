-- ===== src/Config/Defaults.antt =====
-- The effective configuration after the defaults.
use honeybadger.Base.{is_positive, ◌<◌, ◌≡◌, refl, true, arith}
use honeybadger.Config.{
  Config, Writer, nil_writer, discard, writer, or_discard, set_defaults, validate_config,
}

or_discard-ne-nil : (w : Writer) → ¬ (or_discard w ≡ nil_writer)
or_discard-ne-nil nil_writer h = ground arith
or_discard-ne-nil discard h = ground arith
or_discard-ne-nil (writer n) h = ground arith

or_discard_idem : (w : Writer) → or_discard (or_discard w) ≡ or_discard w
or_discard_idem nil_writer = refl
or_discard_idem discard = refl
or_discard_idem (writer n) = refl

-- After the defaults a configuration has a positive timeout, a positive snapshot threshold and a
-- log output that is not nil; the defaults change nothing in it a second time, and they do not
-- change whether it is valid.
pub set_defaults_lem :
    {T : Type 0} (c : Config T)
    → (is_positive (set_defaults c).advanced.apply_timeout ≡ true)
      × (0 < (set_defaults c).advanced.snapshot_threshold)
      × (¬ ((set_defaults c).advanced.log_output ≡ nil_writer))
      × (set_defaults (set_defaults c) ≡ set_defaults c)
      × (validate_config (set_defaults c) ≡ validate_config c)
unfolding set_defaults validate_config
set_defaults_lem c = (
  ground arith,
  ground arith,
  or_discard-ne-nil c.advanced.log_output,
  ground (arith, or_discard_idem c.advanced.log_output),
  refl,
)
