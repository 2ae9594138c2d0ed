-- ===== src/Tests/TextTests.antt =====
-- Texts of roles, states and errors.
use honeybadger.Base.{codes, format_uint, digits, ◌≡◌, refl, []}
use honeybadger.Cluster.{role_other}
use honeybadger.Status.{state_other}
use honeybadger.Options.{read_other}
use honeybadger.Texts.{
  read_mode_string, role_string, state_string, not_leader_text, not_leader_error_text,
}

run_texts :
    (role_string (role_other 250) ≡ codes "NodeRole(250)")
    × (state_string (state_other 7) ≡ codes "State(7)")
    × (read_mode_string (read_other 42) ≡ codes "ReadMode(42)")
    × (not_leader_error_text (codes "n1") (codes "h:1")
        ≡ codes "honeybadger: not the leader (leader n1 at h:1)")
    × (not_leader_error_text (codes "n1") [] ≡ not_leader_text)
unfolding role_string state_string read_mode_string not_leader_error_text format_uint digits
run_texts = (refl, refl, refl, refl, refl)
