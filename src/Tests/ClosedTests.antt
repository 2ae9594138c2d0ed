-- ===== src/Tests/ClosedTests.antt =====
-- `Close`, the API after it, and a follower at concrete inputs.
use honeybadger.Base.{codes, pos, negsuc, ◌≡◌, ◌⊎◌, refl, true, false, none, some, List, [], ◌∷◌}
use honeybadger.Errors.{Error, not_leader_error}
use honeybadger.Options.{set_bytes_op, delete_bytes_op}
use honeybadger.Close.{close}
use honeybadger.Close.Laws.{close_idempotent}
use honeybadger.Cluster.{Member, role_none}
use honeybadger.Api.{
  Call, set_call, delete_call, batch_call, get_call, scan_call, view_call, barrier_call,
  add_voter_call, remove_node_call, members_call, snapshot_call, status_call, IsInvalid, respond,
}
use honeybadger.Api.Follower.{asked, follower_refuses}
use honeybadger.Memory.{memory}
use honeybadger.Memory.Consensus.{Cluster}
use honeybadger.Memory.Codec.{codec}
use honeybadger.Tests.Data.{a, b, quiet}
use honeybadger.Tests.NodeData.{cluster, leader, follower, clock, opts, local, linearizable, scan}

close_idempotent_example :
    ((close leader quiet).1.node.closed ≡ true)
    × ((close leader quiet).1.node.store ≡ none)
    × (close (close leader quiet).1 quiet ≡ ((close leader quiet).0, (close leader quiet).1, quiet))
close_idempotent_example = close_idempotent leader quiet quiet refl

abbrev other_node : Member
other_node = record { id = codes "n2"; raft_addr = codes "10.0.0.2:1"; role = role_none }

-- One call of each kind, two of them with an argument that is refused.
abbrev calls : List (Call memory)
calls =
    set_call clock b (codes "2") opts
    ∷ delete_call []
    ∷ batch_call clock []
    ∷ get_call a local
    ∷ scan_call [] (record scan { limit = negsuc 0 })
    ∷ view_call linearizable none
    ∷ barrier_call (pos 1)
    ∷ add_voter_call other_node
    ∷ remove_node_call (codes "n2")
    ∷ members_call
    ∷ snapshot_call
    ∷ status_call
    ∷ []

follower_refuses_example :
    (respond codec
        (batch_call clock (set_bytes_op b (codes "2") [] ∷ delete_bytes_op a ∷ []))
        follower
      ≡ (
        some (not_leader_error (codes "n1") (codes "10.0.0.1:1")),
        asked follower (codes "10.0.0.1:1") (codes "n1") (record cluster { leads = false }),
      ))
    ⊎ ((e : Error) × (((s : Cluster)
            → respond codec
                (batch_call clock (set_bytes_op b (codes "2") [] ∷ delete_bytes_op a ∷ []))
                (record follower { raft = s })
              ≡ (some e, record follower { raft = s }))
          × IsInvalid e))
follower_refuses_example =
    follower_refuses follower (codes "10.0.0.1:1") (codes "n1") (record cluster { leads = false })
      codec refl refl refl
      (batch_call clock (set_bytes_op b (codes "2") [] ∷ delete_bytes_op a ∷ [])) refl
