-- ===== src/ThreeNode/Boot.antt =====
-- examples/three-node/main.go: what the boot of the nodes leaves open.
use honeybadger.Base.{
  ℕ, ◌+◌, ◌≡◌, ◌∙◌, sym, refl, Bytes, List, [], ◌∷◌, length, ap, ◌<◌, Option, none, some, arith,
  inl, inr, Option-cases, codes, Bool,
}
use honeybadger.Errors.{Result, ok, err, Result-cases}
use honeybadger.Badger.{Badger}
use honeybadger.Raft.{Raft}
use honeybadger.Command.{Gob}
use honeybadger.Config.{Config, set_defaults}
use honeybadger.Options.{OpenOption, parse_open_options}
use honeybadger.Cluster.{Poll}
use honeybadger.Db.{Db}
use honeybadger.Close.{close}
use honeybadger.Handles.{HandleLaws, held}
use honeybadger.Open.{
  Host, Opening, Exit, opened, waiting, failed, gave_up, finish_open, open_store, open_db,
  on_failure, drop_store, open_raft, resolve_advertise, resolve_badger_options, fresh_node,
}
use honeybadger.Open.Laws.{HostLaws, no_parts, all_parts}
use honeybadger.Open.Closes.{close_lem}
use honeybadger.Open.Releases.{Leaves, Leaves-subst, open_db-Leaves}
use honeybadger.ThreeNode.{
  Net, Site, Fleet, free_port, demo_config, demo_options, close_nodes, cleanup, boot_loop,
  boot_nodes, Ending, returned, panicked, return_booted,
}

module _ (G : Gob) {B : Badger} {R : Raft} (H : Host B R) where
  module _ (db : Db B R) (r' : R.State) (w' : B.World) where
    -- A node that Open returned was never closed.
    fresh-finish_open :
        (cfg : Config B.Tuning) (x : Exit × Opening B R)
        → finish_open G H cfg x ≡ some (ok db, r', w')
        → db.close_result ≡ none
    fresh-finish_open cfg (opened, o) h = ground arith
    fresh-finish_open cfg (waiting, o) h = ground arith
    fresh-finish_open cfg (failed e, o) h = ground arith
    fresh-finish_open cfg (gave_up e, o) h = ground arith

    fresh-open_store :
        (cfg : Config B.Tuning) (addr : Option H.Addr) (new_cluster : Bool) (start : ℕ)
        (polls : ℕ → Poll) (r : R.State) (w : B.World)
        → open_store G H cfg addr new_cluster start polls r w ≡ some (ok db, r', w')
        → db.close_result ≡ none
    unfolding open_store
    fresh-open_store cfg addr new_cluster start polls r w h =
        let opts = resolve_badger_options G H cfg in
        let made = B.mkdir_all opts.dir w in
        let store = B.open_db opts made.1 in
        elim (Result-cases store.0) [
          | inr (e, refused) ↦ ground arith
          | inl (d, opens) ↦
              let o : Opening B R = record {
                node = fresh_node opts d;
                raft = r;
                world = store.1;
              } in
              let x = open_raft G H cfg addr new_cluster start polls o in
              ground (arith, fresh-finish_open cfg (on_failure drop_store x))
        ]

    fresh-open_db :
        (config : Config B.Tuning) (options : List OpenOption) (start : ℕ) (polls : ℕ → Poll)
        (r : R.State) (w : B.World)
        → open_db G H config options start polls r w ≡ some (ok db, r', w')
        → db.close_result ≡ none
    unfolding open_db
    fresh-open_db config options start polls r w h =
        let cfg = set_defaults config in
        let advertise = resolve_advertise G H cfg r in
        elim (Result-cases (parse_open_options options)) [
          | inr (e, refused) ↦ ground arith
          | inl (new_cluster, parsed) ↦ elim (Result-cases advertise.0) [
            | inr (e, refused) ↦ ground arith
            | inl (addr, resolved) ↦
                ground (arith, fresh-open_store cfg addr new_cluster start polls advertise.1 w)
          ]
        ]

module _ {B : Badger} {R : Raft} {H : Host B R} (D : HandleLaws B) (P : HostLaws H) where
  -- The databases that open nodes hold.
  abbrev pub held_by : List (Db B R) → ℕ
  held_by [] = 0
  held_by (db ∷ nodes) = held db.node.store + held_by nodes

  abbrev pub AllOpen : List (Db B R) → Type 0
  AllOpen [] = Unit
  AllOpen (db ∷ nodes) = (P.parts db.raft ≡ all_parts) × (db.close_result ≡ none) × AllOpen nodes

  abbrev pub AllClosed : List R.State → Type 0
  AllClosed [] = Unit
  AllClosed (r ∷ rafts) = (P.parts r ≡ no_parts) × AllClosed rafts

  module _ (others : ℕ) where
    pub close_nodes-AllClosed :
        (nodes : List (Db B R)) (rafts : List R.State) (w : B.World)
        → AllOpen nodes
        → AllClosed rafts
        → D.open_dbs w ≡ others + held_by nodes
        → AllClosed (close_nodes nodes rafts w).0
          × (D.open_dbs (close_nodes nodes rafts w).1 ≡ others)
          × (length (close_nodes nodes rafts w).0 ≡ length nodes + length rafts)
    unfolding close_nodes
    close_nodes-AllClosed [] rafts w opens closed h = (closed, omega arith, omega arith)
    close_nodes-AllClosed (db ∷ nodes) rafts w (parts, fresh, opens) closed h =
        let (none_left, count) = close_lem D P (others + held_by nodes) db w fresh (omega arith) in
        let (all_closed, left, many) =
          close_nodes-AllClosed nodes ((close db w).1.raft ∷ rafts) (close db w).2 opens
            (none_left, closed) count in
        (all_closed, left, omega arith)

  abbrev AllIdle : List (Bytes × Site R) → Type 0
  AllIdle [] = Unit
  AllIdle ((id, site) ∷ sites) = (P.parts site.raft ≡ no_parts) × AllIdle sites

  module _ {N : Net} where
    -- What a boot of `count` nodes leaves, with `others` open before: all nodes are open, and
    -- `cleanup` closes them; or it panics, with fewer nodes open. It does not return an error.
    abbrev pub BootLeaves : ℕ → ℕ → Option (Ending × Fleet B R N) → Type 0
    BootLeaves others count none = Unit
    BootLeaves others count (some (returned (ok _), f)) =
        (length f.nodes ≡ count)
        × AllOpen f.nodes
        × (D.open_dbs f.world ≡ others + held_by f.nodes)
        × AllClosed (cleanup f).closed_rafts
        × (length (cleanup f).closed_rafts ≡ count)
        × (D.open_dbs (cleanup f).world ≡ others)
    BootLeaves others count (some (returned (err e), f)) = ⊥
    BootLeaves others count (some (panicked, f)) =
        (length f.nodes < count) × AllOpen f.nodes × (D.open_dbs f.world ≡ others + held_by f.nodes)

    -- In the loop: the nodes so far are open, and nothing else is.
    abbrev IsBooting : ℕ → Fleet B R N → Type 0
    IsBooting others f =
        AllOpen f.nodes × (f.closed_rafts ≡ []) × (D.open_dbs f.world ≡ others + held_by f.nodes)

    BootLeaves-subst :
        (others count : ℕ) (x y : Option (Ending × Fleet B R N))
        → x ≡ y
        → BootLeaves others count y
        → BootLeaves others count x
    BootLeaves-subst others count x y e leaves = rw e leaves

    return_booted-BootLeaves :
        (others : ℕ) (f : Fleet B R N)
        → IsBooting others f
        → BootLeaves others (length f.nodes) (some (return_booted f))
    unfolding cleanup
    return_booted-BootLeaves others f (opens, nothing, h) =
        let (all_closed, left, many) =
          close_nodes-AllClosed others f.nodes f.closed_rafts f.world opens (rw nothing tt) h in
        let none_closed : length f.closed_rafts ≡ 0 = ap length nothing in
        (refl, opens, h, all_closed, omega arith, left)

    module _ (G : Gob) (root : Bytes) (others : ℕ) where
      boot_loop-BootLeaves :
          (count : ℕ) (sites : List (Bytes × Site R)) (f : Fleet B R N)
          → count ≡ length f.nodes + length sites
          → AllIdle sites
          → IsBooting others f
          → BootLeaves others count (boot_loop G H N root sites f)
      unfolding boot_loop
      boot_loop-BootLeaves count [] f many idle booting =
          let all : count ≡ length f.nodes = omega arith in
          rw all (return_booted-BootLeaves others f booting)
      boot_loop-BootLeaves count ((id, site) ∷ sites) f many (idle, idles) (opens, closed, h) =
          let ported = free_port N f.net in
          let f' : Fleet B R N = record f { net = ported.1 } in
          elim (Result-cases ported.0) [
            | inr (e, none_free) ↦
                BootLeaves-subst others count _ (some (panicked, f')) (ground arith)
                  (omega arith, opens, h)
            | inl (port, free) ↦
                let cfg = demo_config H root id port in
                let opts = demo_options f.nodes in
                let x = open_db G H cfg opts site.start site.polls site.raft f.world in
                let leaves =
                  open_db-Leaves G D P cfg opts site.start site.polls site.raft f.world idle in
                let left_by : (result : Result (Db B R)) (r : R.State) (w : B.World)
                    → x ≡ some (result, r, w)
                    → Leaves G D P (D.open_dbs f.world) (some (result, r, w)) =
                  λ result r w found.
                    Leaves-subst G D P (D.open_dbs f.world) _ x (sym found) leaves in
                elim (Option-cases x) [
                  | inl waits ↦ BootLeaves-subst others count _ none (ground arith) tt
                  | inr ((result, r, w), found) ↦ elim (Result-cases result) [
                    | inr (e, failed_) ↦
                        let f'' : Fleet B R N = record f' {
                          closed_rafts = r ∷ f.closed_rafts;
                          world = w;
                        } in
                        BootLeaves-subst others count _ (some (panicked, f'')) (ground arith) (
                          let left = left_by (err e) r w (ground arith) in
                          (omega arith, opens, left.1 ∙ h))
                    | inl (db, good) ↦
                        let f'' : Fleet B R N = record f' { nodes = db ∷ f.nodes; world = w } in
                        BootLeaves-subst others count _ (boot_loop G H N root sites f'')
                          (ground arith)
                          (boot_loop-BootLeaves count sites f'' (omega arith) idles (
                            let left = left_by (ok db) r w (ground arith) in
                            (
                              (
                                ground (arith, left.0, left.1),
                                fresh-open_db G H db r w cfg opts site.start site.polls site.raft
                                    f.world (ground arith),
                                opens,
                              ),
                              closed,
                              omega (arith, left.2),
                            )))
                  ]
                ]
          ]

  -- `bootNodes` on sites that hold nothing of Raft yet never returns an error. Where it returns,
  -- three nodes are open, each with all its parts; besides the databases that were open before,
  -- their stores are; and the returned cleanup leaves none of the three with a log store, a
  -- transport or a Raft instance, and as many databases open as before. Where a port cannot be had
  -- or an Open fails, it panics, and the nodes that it has opened, fewer than three, are still open.
  -- (An Open may also still wait for a leader.)
  pub boot_nodes-BootLeaves :
      (G : Gob) (N : Net) (root : Bytes) (first second third : Site R) (net : N.State) (w : B.World)
      → P.parts first.raft ≡ no_parts
      → P.parts second.raft ≡ no_parts
      → P.parts third.raft ≡ no_parts
      → BootLeaves (D.open_dbs w) 3 (boot_nodes G H N root first second third net w)
  unfolding boot_nodes
  boot_nodes-BootLeaves G N root first second third net w idle₁ idle₂ idle₃ =
      boot_loop-BootLeaves G root (D.open_dbs w) 3
        ((codes "node-1", first) ∷ (codes "node-2", second) ∷ (codes "node-3", third) ∷ [])
        (record { nodes = []; closed_rafts = []; net = net; world = w }) refl
        (idle₁, (idle₂, (idle₃, tt))) (tt, refl, omega arith)
