-- ===== src/Tests/FsmTests.antt =====
-- `Apply` and replay on concrete logs.
use honeybadger.Base.{
  Bytes, ◌≤◌, ◌≡◌, refl, ◌⊎◌, some, List, [], ◌∷◌, ◌++◌, arith, bytes_eq, bytes_lt,
}
use honeybadger.Errors.{Error, done, ok, err, errors_is}
use honeybadger.Command.{Command, LogEntry}
use honeybadger.Command.Effect.{after}
use honeybadger.Node.{Node, with_store}
use honeybadger.Fsm.{
  apply, apply_log, decode_command, finish, write_command, set_pairs, delete_keys, new_entry,
}
use honeybadger.Fsm.Apply.{contents, applied_log, apply_atomic}
use honeybadger.Fsm.Replay.{last_index, replay_converges, applied_index-apply_log}
use honeybadger.Memory.{memory, lookup, insert, erase, update_items, set_item}
use honeybadger.Memory.Laws.{memory_txns}
use honeybadger.Memory.Codec.{codec, read_command}
use honeybadger.Tests.Data.{b, two, node, entry_set, entry_drop, entry_bad, content, live_dir}

program : Unit {0}
unfolding apply apply_log decode_command finish write_command set_pairs delete_keys new_entry
    with_store update_items set_item insert erase lookup bytes_eq bytes_lt read_command errors_is
    entry_set entry_drop content applied_log
program = tt

-- A set, an entry that does not decode, and a delete.
abbrev entries : List LogEntry
entries = entry_set ∷ entry_bad ∷ entry_drop ∷ []

run_entries :
    ((apply_log codec memory entries node).store
      ≡ some (record { home = live_dir; items = (b, two) ∷ [] }))
    × ((apply_log codec memory entries node).applied_index ≡ 6)
unfolding program
run_entries = (refl, refl)

apply_atomic_example :
    ((c : Command) × ((apply codec memory entry_set node).0 ≡ done)
      × (codec.decode entry_set.content ≡ ok c)
      × ((k : Bytes)
          → contents memory memory_txns (apply codec memory entry_set node).1 k
            ≡ after c (contents memory memory_txns node) k)
      × ((apply codec memory entry_set node).1.applied_index ≡ entry_set.index))
    ⊎ ((e : Error) × ((apply codec memory entry_set node).0 ≡ err e)
        × ((k : Bytes)
            → contents memory memory_txns (apply codec memory entry_set node).1 k
              ≡ contents memory memory_txns node k)
        × ((apply codec memory entry_set node).1.applied_index ≡ node.applied_index))
apply_atomic_example = apply_atomic memory memory_txns codec entry_set node

-- The node after the set and the bad entry, as a snapshot would hold it.
abbrev ahead : Node memory
ahead = apply_log codec memory (entry_set ∷ entry_bad ∷ []) node

same_entries :
    applied_log memory memory_txns codec ((entry_set ∷ entry_bad ∷ []) ++ (entry_drop ∷ [])) ahead
    ≡ applied_log memory memory_txns codec ((entry_set ∷ entry_bad ∷ []) ++ (entry_drop ∷ [])) node
unfolding program
same_entries = refl

replay_converges_example :
    contents memory memory_txns (apply_log codec memory entries ahead) b
    ≡ contents memory memory_txns (apply_log codec memory entries node) b
replay_converges_example =
    replay_converges memory memory_txns codec (entry_set ∷ entry_bad ∷ []) (entry_drop ∷ []) node
      ahead (λ k. refl) same_entries b

applied_index-apply_log_example :
    (node.applied_index ≤ (apply_log codec memory entries node).applied_index)
    × ((apply_log codec memory entries node).applied_index ≤ last_index 3 entries)
unfolding entry_set entry_drop
applied_index-apply_log_example =
    applied_index-apply_log memory memory_txns codec entries node 3 (omega arith) (omega arith)
