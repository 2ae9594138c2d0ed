-- ===== src/Tests/NodeTests.antt =====
-- The API of a node at concrete inputs: writes, reads and scans.
use honeybadger.Base.{
  pos, ℕ, Bytes, codes, bytes_eq, bytes_lt, has_prefix, keep, ◌≡◌, refl, true, false, none, some,
  List, [], ◌∷◌, if◌then◌else◌,
}
use honeybadger.Errors.{
  ok, err, done, errors_is, sentinel, key_not_found, errors_join, errors_is_foreign,
}
use honeybadger.Badger.{Stored, visible}
use honeybadger.Command.{Command}
use honeybadger.Command.Effect.{after}
use honeybadger.Node.{check_open, with_store}
use honeybadger.Options.{resolve_limit, resolve_set_options, resolve_loop, abs_expiry}
use honeybadger.Fsm.{
  apply, apply_log, decode_command, encode_command, finish, write_command, set_pairs, delete_keys,
  new_entry,
}
use honeybadger.Fsm.Apply.{contents}
use honeybadger.Batch.{set_command, delete_command}
use honeybadger.Db.{Db, not_leader_err, future_error, on_leader, settle, replicate, submit}
use honeybadger.Write.{set_bytes, delete_bytes, batch}
use honeybadger.Write.Effect.{applied_before, set_of, submit_ok, set_bytes_ok}
use honeybadger.Read.{
  ScanEntry, read_value, scan_loop, scan_txn, barrier, prepare_mode, prepare_read, get_bytes,
  scan_prefix_bytes,
}
use honeybadger.Read.Point.{read_clock, get_bytes_absent, read_your_write}
use honeybadger.Read.Scan.{copy_items, up_to, scan_txn_lem}
use honeybadger.Close.{close, close_once, close_store}
use honeybadger.Memory.{
  memory, lookup, insert, erase, insert_all, update_items, set_item, get_item, visible_items,
  put_dir,
}
use honeybadger.Memory.Laws.{memory_txns}
use honeybadger.Memory.Reads.{memory_reads}
use honeybadger.Memory.Codec.{codec, codec_laws, read_command, write_pairs, write_deletes}
use honeybadger.Memory.Consensus.{submit_content, consensus, consensus_laws}
use honeybadger.Tests.Data.{a, b, one, two, live_dir, node, set_b, entry_drop, content}
use honeybadger.Command.Effect.{after_log}
use honeybadger.Options.{Mutation, set_bytes_op, delete_bytes_op}
use honeybadger.Db.{is_leader}
use honeybadger.Batch.Order.{singles}
use honeybadger.Write.Batches.{batch_ok}
use honeybadger.Read.Barrier.{awaited, get_bytes_linearizable}
use honeybadger.Write.{batch_open}
use honeybadger.Batch.{batch_command, batch_loop}
use honeybadger.Tests.NodeData.{cluster, leader, clock, opts, local, linearizable, scan, wrote}
use honeybadger.Base.{All}
use honeybadger.Read.Hits.{IsHit}
use honeybadger.Read.Complete.{Lists, scan_exact}
use honeybadger.Options.{ScanOptions}

program : Unit {0}
unfolding batch_open batch_command batch_loop apply apply_log decode_command encode_command finish
    write_command set_pairs delete_keys new_entry with_store check_open update_items set_item insert
    erase insert_all lookup get_item visible_items bytes_eq bytes_lt read_command write_pairs
    write_deletes errors_is errors_is_foreign set_bytes delete_bytes batch set_command
    delete_command resolve_set_options resolve_loop abs_expiry submit on_leader replicate settle
    future_error not_leader_err submit_content entry_drop content get_bytes prepare_read
    prepare_mode barrier read_value scan_prefix_bytes scan_txn scan_loop resolve_limit has_prefix
    close close_once close_store put_dir errors_join
program = tt

submitted : (submit codec set_b leader).0 ≡ done
unfolding program
submitted = refl

set_done : (set_bytes codec clock b (codes "2") opts leader).0 ≡ done
unfolding program
set_done = refl

got_local : (get_bytes codec b local wrote).0 ≡ ok (codes "2")
unfolding program
got_local = refl

got_linearizable : (get_bytes codec a linearizable leader).0 ≡ ok (codes "1")
unfolding program
got_linearizable = refl

abbrev found : List ScanEntry
found = record { key = a; value = codes "1" } ∷ record { key = b; value = codes "2" } ∷ []

scanned : (scan_prefix_bytes codec [] scan wrote).0 ≡ ok found
unfolding program
scanned = refl

submit_ok_example :
    contents memory memory_txns (submit codec set_b leader).1.node b
    ≡ after set_b
        (contents memory memory_txns
          (apply_log codec memory (applied_before consensus codec set_b leader) node))
        b
submit_ok_example =
    submit_ok memory memory_txns consensus consensus_laws codec codec_laws set_b leader submitted b

set_bytes_ok_example :
    (expires_at : ℕ) × (resolve_set_options (clock 0) opts ≡ ok expires_at)
    × ((k : Bytes)
        → contents memory memory_txns (set_bytes codec clock b (codes "2") opts leader).1.node k ≡ (
            if bytes_eq b k
            then some (record { value = codes "2"; expires_at = expires_at })
            else contents memory memory_txns
                (apply_log codec memory
                  (applied_before consensus codec (set_of b (codes "2") expires_at) leader)
                  node)
                k))
set_bytes_ok_example =
    set_bytes_ok memory memory_txns consensus consensus_laws codec codec_laws clock b (codes "2")
      opts leader set_done

read_your_write_example : codes "2" ≡ codes "2"
read_your_write_example =
    read_your_write memory memory_txns memory_reads consensus consensus_laws codec codec_laws clock
      b (codes "2") opts local leader (codes "2") set_done refl got_local

-- The leader once the entry that deletes `a` has reached it: it waits before the barrier.
abbrev behind : Db memory consensus
behind = record leader { raft = record cluster { backlog = entry_drop ∷ [] } }

barrier_applies :
    ((prepare_read codec linearizable behind).0 ≡ done)
    × ((prepare_read codec linearizable behind).1.node.closed ≡ false)
    × ((prepare_read codec linearizable behind).1.node.store
        ≡ some (record { home = live_dir; items = [] }))
unfolding program
barrier_applies = (refl, refl, refl)

dropped :
    visible
      (read_clock memory memory_txns memory_reads (record { home = live_dir; items = [] }))
      (memory_txns.stored (record { home = live_dir; items = [] }) a)
    ≡ none
unfolding program
dropped = refl

get_bytes_absent_example :
    get_bytes codec a linearizable behind
    ≡ (err (sentinel key_not_found), (prepare_read codec linearizable behind).1)
get_bytes_absent_example =
    get_bytes_absent memory memory_txns memory_reads consensus codec a linearizable behind
      (record { home = live_dir; items = [] }) refl barrier_applies.0 barrier_applies.1
      barrier_applies.2 dropped

scan_txn_lem_example :
    scan_txn memory [] 1 ((b, two) ∷ (a, one) ∷ [])
    ≡ copy_items memory (
        up_to 1 (
          keep
            (λ item. has_prefix [] (memory.key_copy item))
            (memory_reads.all_items ((b, two) ∷ (a, one) ∷ []))))
scan_txn_lem_example = scan_txn_lem memory memory_txns memory_reads [] 1 ((b, two) ∷ (a, one) ∷ [])

abbrev mutations : List Mutation
mutations = set_bytes_op b (codes "2") opts ∷ delete_bytes_op a ∷ []

batched : (batch codec clock mutations leader).0 ≡ done
unfolding program
batched = refl

batch_ok_example :
    (cmd : Command) × (batch_command clock mutations ≡ ok cmd)
    × ((cs : List Command) × (singles clock 0 mutations ≡ ok cs)
        × ((k : Bytes)
            → contents memory memory_txns (batch codec clock mutations leader).1.node k
              ≡ after_log cs
                  (contents memory memory_txns
                    (apply_log codec memory (applied_before consensus codec cmd leader) node))
                  k))
batch_ok_example =
    batch_ok memory memory_txns consensus consensus_laws codec codec_laws clock
      (set_bytes_op b (codes "2") opts) (delete_bytes_op a ∷ []) leader batched

get_bytes_linearizable_example :
    (is_leader (consensus.state cluster).0 ≡ true)
    × ((d : memory.Db) × ((apply_log codec memory
            (awaited consensus codec linearizable leader)
            node).store
          ≡ some d)
        × ((v : Stored) × (visible
                (read_clock memory memory_txns memory_reads d)
                (memory_txns.stored d a)
              ≡ some v)
            × (v.value ≡ codes "1")))
get_bytes_linearizable_example =
    get_bytes_linearizable consensus codec memory_txns memory_reads a linearizable leader
      (codes "1") refl got_linearizable

abbrev whole_scan : ScanOptions
whole_scan = record scan { limit = pos 0; unlimited = true }

unlimited : resolve_limit whole_scan ≡ ok 0
unfolding program
unlimited = refl

scanned_all : (scan_prefix_bytes codec [] whole_scan wrote).0 ≡ ok found
unfolding program
scanned_all = refl

scan_exact_example :
    (d : memory.Db) × ((scan_prefix_bytes codec [] whole_scan wrote).1.node.store ≡ some d)
    × All (IsHit memory memory_txns memory_reads d []) found
    × ((k : Bytes) (v : Stored)
        → has_prefix [] k ≡ true
        → visible (read_clock memory memory_txns memory_reads d) (memory_txns.stored d k) ≡ some v
        → Lists memory memory_txns memory_reads k v.value found)
scan_exact_example =
    scan_exact memory memory_txns memory_reads consensus codec [] whole_scan wrote found unlimited
      scanned_all
