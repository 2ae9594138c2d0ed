-- ===== src/Tests/DemoReadTests.antt =====
-- A follower of the demo that replays the log of its writes.
use honeybadger.Base.{
  false, bytes_eq_iff, Bytes, ◌⊎◌, ◌++◌, inl, inr, sym, ap, subst, ◌∙◌, append_cancel_left,
  Bool-cases, codes, ◌≡◌, refl, true, some, List, [], ◌∷◌, arith, bytes_eq, bytes_lt, has_prefix,
}
use honeybadger.Errors.{errors_is, errors_is_foreign}
use honeybadger.Command.{Command}
use honeybadger.Options.{add_duration, resolve_limit}
use honeybadger.Node.{check_open, with_store}
use honeybadger.Fsm.{
  apply, decode_command, finish, write_command, set_pairs, delete_keys, new_entry,
}
use honeybadger.Read.{
  read_value, scan_loop, scan_txn, prepare_mode, prepare_read, get_bytes, scan_prefix_bytes,
}
use honeybadger.Open.{run_calls}
use honeybadger.Demo.{Scene, wait_for, wait_for_loop, sees_value, misses_key, meanwhile, polled}
use honeybadger.Demo.Script.{read_later, scan_later, demo_reads}
use honeybadger.Demo.Log.{set_user, set_session, set_users, demo_log, replayed}
use honeybadger.Demo.Reads.{Replays, IsBehind}
use honeybadger.Demo.Shown.{AreUsers, demo_reads-AreUsers}
use honeybadger.Demo.Waits.{Yields}
use honeybadger.Command.Effect.{written, last_pair, after, after_log}
use honeybadger.Fsm.Apply.{contents}
use honeybadger.Memory.Laws.{memory_txns}
use honeybadger.Memory.Reads.{memory_reads}
use honeybadger.Memory.{
  memory, lookup, insert, erase, insert_all, update_items, set_item, get_item, visible_items,
}
use honeybadger.Memory.Codec.{codec, read_command, write_pairs, write_deletes}
use honeybadger.Memory.Hosts.{host}
use honeybadger.Tests.NodeData.{leader, cluster}
use honeybadger.Tests.Data.{content, node, live, quiet}
use honeybadger.Tests.DemoTests.{view, servers, expiry}

reading : Unit {0}
unfolding meanwhile polled run_calls apply decode_command finish write_command set_pairs delete_keys
    new_entry with_store check_open update_items set_item insert erase insert_all lookup get_item
    visible_items bytes_eq bytes_lt read_command write_pairs write_deletes errors_is
    errors_is_foreign read_value scan_loop scan_txn prepare_mode prepare_read get_bytes
    scan_prefix_bytes resolve_limit has_prefix wait_for wait_for_loop sees_value misses_key
    read_later scan_later demo_reads add_duration content
reading = tt

-- A follower that has replayed the two Sets, and is handed the batch next.
unfoldable before_batch : Scene codec host
unfolding content
before_batch = (
  record leader {
    node = record node {
      store = some (record live {
        items =
            (codes "session:xyz", record { value = codes "token-123"; expires_at = expiry })
            ∷ (codes "user:1", record { value = codes "ada"; expires_at = 0 })
            ∷ [];
      });
    };
    raft = record cluster {
      leads = false;
      servers = servers;
      backlog = record { index = 6; content = content set_users } ∷ [];
    };
  },
  quiet,
)

unfoldable after_batch : Scene codec host
after_batch = (
  record leader {
    node = record node {
      store = some (record live {
        items =
            (codes "session:xyz", record { value = codes "token-123"; expires_at = expiry })
            ∷ (codes "user:2", record { value = codes "grace"; expires_at = 0 })
            ∷ (codes "user:3", record { value = codes "edsger"; expires_at = 0 })
            ∷ [];
      });
      applied_index = 6;
    };
    raft = record cluster { leads = false; servers = servers; backlog = [] };
  },
  quiet,
)

behind_goes_on : meanwhile codec host before_batch ≡ after_batch
unfolding reading before_batch after_batch
behind_goes_on = refl

whole_stays : meanwhile codec host after_batch ≡ after_batch
unfolding reading after_batch
whole_stays = refl

abbrev FollowerAt : List Command → Scene codec host → Type 0
FollowerAt cs s =
    ((cs ≡ set_user ∷ set_session expiry ∷ []) × (s ≡ before_batch))
    ⊎ ((cs ≡ demo_log expiry) × (s ≡ after_batch))

behind_holds :
    (k : Bytes)
    → contents memory memory_txns before_batch.0.node k
      ≡ replayed (set_user ∷ set_session expiry ∷ []) k
unfolding before_batch lookup after_log after written last_pair
behind_holds k =
    ground (
      arith,
      Bool-cases (bytes_eq (codes "session:xyz") k),
      Bool-cases (bytes_eq (codes "user:1") k),
    )

-- Both sides agree at a given key, so they do at each key that is equal to it.
holds_at :
    (k j : Bytes)
    → bytes_eq k j ≡ true
    → contents memory memory_txns after_batch.0.node k ≡ replayed (demo_log expiry) k
    → contents memory memory_txns after_batch.0.node j ≡ replayed (demo_log expiry) j
holds_at k j same h =
    subst (λ x. contents memory memory_txns after_batch.0.node x ≡ replayed (demo_log expiry) x)
      ((bytes_eq_iff k j).0 same) h

whole_holds :
    (k : Bytes) → contents memory memory_txns after_batch.0.node k ≡ replayed (demo_log expiry) k
unfolding after_batch lookup after_log after written last_pair bytes_eq
whole_holds k = elim (Bool-cases (bytes_eq (codes "session:xyz") k)) [
  | inl yes_ ↦ holds_at (codes "session:xyz") k yes_ refl
  | inr not_session ↦ elim (Bool-cases (bytes_eq (codes "user:1") k)) [
    | inl yes_ ↦ holds_at (codes "user:1") k yes_ refl
    | inr not_first ↦ elim (Bool-cases (bytes_eq (codes "user:2") k)) [
      | inl yes_ ↦ holds_at (codes "user:2") k yes_ refl
      | inr not_second ↦ ground (arith, Bool-cases (bytes_eq (codes "user:3") k))
    ]
  ]
]

follower : Replays codec memory_txns host (demo_log expiry)
follower = record {
  At = FollowerAt;
  At-contents = λ cs db w at k. elim at [
    | inl (some_, there) ↦
        ap (λ (s : Scene codec host). contents memory memory_txns s.0.node k) there
        ∙ behind_holds k
        ∙ ap (λ ds. replayed ds k) (sym some_)
    | inr (all, there) ↦
        ap (λ (s : Scene codec host). contents memory memory_txns s.0.node k) there
        ∙ whole_holds k
        ∙ ap (λ ds. replayed ds k) (sym all)
  ];
  At-meanwhile = λ cs later s split at. elim at [
    | inl (some_, there) ↦
        let same : later ≡ set_users ∷ [] =
          append_cancel_left (set_user ∷ set_session expiry ∷ []) later (set_users ∷ [])
            (ap (λ ds. ds ++ later) (sym some_) ∙ split) in
        (
          set_users ∷ [],
          [],
          same,
          inr (
            ap (λ ds. ds ++ (set_users ∷ [])) some_,
            ap (meanwhile codec host) there ∙ behind_goes_on,
          ),
        )
    | inr (all, there) ↦
        let nothing : later ≡ [] =
          append_cancel_left (demo_log expiry) later []
            (ap (λ ds. ds ++ later) (sym all) ∙ split) in
        (
          [],
          [],
          nothing,
          inr (ap (λ ds. ds ++ []) all, ap (meanwhile codec host) there ∙ whole_stays),
        )
  ];
}

run_reads :
    Yields
      (λ es s.
        es
        ≡ record { key = codes "user:2"; value = codes "grace" }
          ∷ record { key = codes "user:3"; value = codes "edsger" }
          ∷ [])
      (demo_reads codec host view before_batch)
unfolding reading before_batch
run_reads = refl

before_batch-IsBehind : IsBehind codec memory_txns memory_reads host expiry follower before_batch
unfolding follower
before_batch-IsBehind = (set_user ∷ set_session expiry ∷ [], set_users ∷ [], refl, inl (refl, refl))

demo_reads-AreUsers_example :
    Yields
      (λ es s. AreUsers codec memory_txns memory_reads host expiry follower es)
      (demo_reads codec host view before_batch)
demo_reads-AreUsers_example =
    demo_reads-AreUsers codec memory_txns memory_reads host expiry follower view before_batch
      before_batch-IsBehind
