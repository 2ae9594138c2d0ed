-- ===== src/Demo/Script.antt =====
-- examples/three-node/main.go: `formCluster`, `demoReads`, `demoTTL` and `run`.
use honeybadger.Base.{ℕ, pos, Bytes, codes, List, [], ◌∷◌, Option, none, some, Bool, true, false}
use mathlib.Core.List.{reverse}
use honeybadger.Errors.{Result, ok, err, done, errors_is, key_not_found}
use honeybadger.Badger.{Badger}
use honeybadger.Raft.{Raft}
use honeybadger.Command.{Gob}
use honeybadger.Options.{ScanOptions}
use honeybadger.Db.{Db}
use honeybadger.Read.{ScanEntry, get_bytes, scan_prefix_bytes}
use honeybadger.Open.{Host}
use honeybadger.ThreeNode.{
  Net, Site, Fleet, Ending, returned, panicked, cleanup, boot_nodes, demo_writes,
}
use honeybadger.Demo.{
  Times, Sight, local_reads, join_voters, present_leader, first_follower, sees_value, misses_key,
  sees_key, Scene, meanwhile, wait_on, Stage, and_then, await_voters, at_node,
}

-- What the parts of a demo observe.
pub record View : Type 0 where
  pub sights : ℕ → Sight
  -- the clock in the three writes
  pub first_write : ℕ → ℕ
  pub second_write : ℕ → ℕ
  pub third_write : ℕ → ℕ
  -- the waits of `demoReads` and of `demoTTL`
  pub replicates : Times
  pub deletes : Times
  pub session : Times

abbrev pub user_scan : ScanOptions
user_scan = record { read = local_reads; limit = pos 0; unlimited = true }

-- `nodes[1:]`
abbrev pub others_of : {A : Type 0} → List A → List A
others_of [] = []
others_of (x ∷ xs) = xs

abbrev pub ending_of : {A : Type 0} → Result A → Ending
ending_of (err e) = returned (err e)
ending_of (ok _) = returned done

module _ (G : Gob) {B : Badger} {R : Raft} (H : Host B R) where
  -- A part of the demo: its result, and what it leaves.
  abbrev pub Part : Type 0 → Type 0 → Type 0
  Part S A = S → Option (Result A × S)

  -- A call of the leader, `nodes[0]`.
  abbrev pub on_first : {A : Type 0} → (Db B R → Result A × Db B R) → Part (Stage G H) A
  on_first call (nodes, w) =
      at_node G H 0 (λ s. let (result, db) = call s.0 in some (result, (db, s.1))) nodes w

  -- `formCluster`
  unfoldable pub form_cluster : (ℕ → Sight) → Part (Stage G H) (Unit {0})
  form_cluster sights s =
      and_then (on_first (λ leader. join_voters (others_of s.0) leader) s)
        λ _ s'. and_then (await_voters G H sights 0 s'.0 s'.1) λ _ s''. on_first present_leader s''

  -- A local read on the follower, some time later.
  unfoldable pub read_later : Bytes → Part (Scene G H) Bytes
  read_later key s =
      let (db, w) = meanwhile G H s in
      let (got, db') = get_bytes G key local_reads db in some (got, (db', w))

  unfoldable pub scan_later : Part (Scene G H) (List ScanEntry)
  scan_later s =
      let (db, w) = meanwhile G H s in
      let (entries, db') = scan_prefix_bytes G (codes "user:") user_scan db in
      some (entries, (db', w))

  -- `demoReads`: the entries of its scan
  unfoldable pub demo_reads : View → Part (Scene G H) (List ScanEntry)
  demo_reads view s =
      and_then (wait_on G H (sees_value G (codes "user:2") (codes "grace")) view.replicates s)
        λ _ s₁. and_then (read_later (codes "user:2") s₁) λ _ s₂.
          and_then (wait_on G H (misses_key G (codes "user:1")) view.deletes s₂)
            λ _ s₃. scan_later s₃

  -- The end of `demoTTL`: whether the key is missing.
  abbrev pub is_missing : {A : Type 0} → Result A → Bool
  is_missing (err e) = errors_is e key_not_found
  is_missing (ok _) = false

  -- `demoTTL`: whether the key is missing after its time to live. The result of the read before is
  -- only printed.
  unfoldable pub demo_ttl : View → Part (Scene G H) Bool
  demo_ttl view s = and_then (wait_on G H (sees_key G (codes "session:xyz")) view.session s) λ _ s₁.
      let (db, w) = meanwhile G H s₁ in
      let (shown, db') = get_bytes G (codes "session:xyz") local_reads db in
      let (db″, w″) = meanwhile G H (db', w) in
      let (gone, db‴) = get_bytes G (codes "session:xyz") local_reads db″ in
      some (ok (is_missing gone), (db‴, w″))

  -- The part of `run` on the follower.
  abbrev pub demo_follower : View → Part (Scene G H) Bool
  demo_follower view s = and_then (demo_reads view s) λ entries s'. demo_ttl view s'

  -- `run`, between `bootNodes` and the deferred calls.
  unfoldable pub demo : View → Part (Stage G H) Bool
  demo view s = and_then (form_cluster view.sights s) λ _ s₁.
      and_then (on_first (demo_writes G view.first_write view.second_write view.third_write) s₁)
        λ _ s₂.
          let (i, asked) = first_follower 0 s₂.0 in at_node G H i (demo_follower view) asked s₂.1

  module _ {N : Net} where
    -- `os.RemoveAll(root)`, deferred
    abbrev pub removed : Bytes → Fleet B R N → Fleet B R N
    removed root f = record f { world = (B.remove_all root f.world).1 }

    -- How `run` returns from a result of the demo, with its deferred calls.
    abbrev pub shut_down :
        Bytes → Fleet B R N → Option (Result Bool × Stage G H) → Option (Ending × Fleet B R N)
    shut_down root f none = none
    shut_down root f (some (result, (nodes, w))) =
        some
          (ending_of result, removed root (cleanup (record f { nodes = reverse nodes; world = w })))

  -- `run`: the result of `os.MkdirTemp` is given. The deferred calls run after a panic, too.
  unfoldable pub run :
      (N : Net)
      → Result Bytes
      → Site R
      → Site R
      → Site R
      → View
      → N.State
      → B.World
      → Option (Ending × Fleet B R N)
  run N (err e) first second third view net w =
      some (returned (err e), record { nodes = []; closed_rafts = []; net = net; world = w })
  run N (ok root) first second third view net w =
      elim (boot_nodes G H N root first second third net w) [
        | none ↦ none
        | some (panicked, f) ↦ some (panicked, removed root f)
        | some (returned (err e), f) ↦ some (returned (err e), removed root f)
        | some (returned (ok _), f) ↦ shut_down root f (demo view (reverse f.nodes, f.world))
      ]
