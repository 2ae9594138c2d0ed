-- ===== src/Open/Releases.antt =====
-- An `Open` that fails leaves nothing open.
use honeybadger.Base.{ℕ, ◌≡◌, refl, Bool, List, Option, none, some, arith, inl, inr}
use honeybadger.Errors.{Result, ok, err, wrap, Result-cases}
use honeybadger.Badger.{Badger}
use honeybadger.Raft.{Raft}
use honeybadger.Command.{Gob}
use honeybadger.Config.{Config, set_defaults, validate_config}
use honeybadger.Options.{OpenOption, parse_open_options}
use honeybadger.Db.{Db}
use honeybadger.Cluster.{Poll}
use honeybadger.Handles.{HandleLaws, IsBalanced}
use honeybadger.Handles.Kept.{close_store-IsBalanced}
use honeybadger.Open.{
  Host, Opening, Exit, opened, waiting, failed, gave_up, on_failure, drop_store, fresh_node,
  resolve_advertise, resolve_badger_options, open_raft, finish_open, open_store, open_db,
}
use honeybadger.Open.Laws.{HostLaws, no_parts, all_parts, Ends}
use honeybadger.Open.Stages.{open_raft-Ends}

module _ (G : Gob) {B : Badger} {R : Raft} {H : Host B R} (D : HandleLaws B) (P : HostLaws H) where
  -- What `Open` as a whole leaves, by its result.
  abbrev pub Leaves : ℕ → Option (Result (Db B R) × R.State × B.World) → Type 0
  Leaves others none = Unit
  Leaves others (some (ok db, r, w)) =
      (db.raft ≡ r) × (P.parts r ≡ all_parts) × IsBalanced D others db.node w
  Leaves others (some (err e, r, w)) = (P.parts r ≡ no_parts) × (D.open_dbs w ≡ others)

  finish_open-Leaves :
      (others : ℕ) (cfg : Config B.Tuning) (x : Exit × Opening B R)
      → Ends D P others no_parts x
      → Leaves others (finish_open G H cfg (on_failure drop_store x))
  finish_open-Leaves others cfg (opened, o) ends = (refl, ends.0, ends.1)
  finish_open-Leaves others cfg (waiting, o) ends = tt
  finish_open-Leaves others cfg (gave_up e, o) ends = ends
  finish_open-Leaves others cfg (failed e, o) (parts, balanced) =
      (parts, (close_store-IsBalanced B D others o.node o.world balanced).1)

  pub Leaves-subst :
      (others : ℕ) (x y : Option (Result (Db B R) × R.State × B.World))
      → x ≡ y
      → Leaves others y
      → Leaves others x
  Leaves-subst others x y e leaves = rw e leaves

  open_store-Leaves :
      (cfg : Config B.Tuning) (addr : Option H.Addr) (new_cluster : Bool) (start : ℕ)
      (polls : ℕ → Poll) (r : R.State) (w : B.World)
      → P.parts r ≡ no_parts
      → Leaves (D.open_dbs w) (open_store G H cfg addr new_cluster start polls r w)
  unfolding open_store
  open_store-Leaves cfg addr new_cluster start polls r w has =
      let others = D.open_dbs w in
      let opts = resolve_badger_options G H cfg in
      let made = B.mkdir_all opts.dir w in
      let kept = D.open_dbs-mkdir_all opts.dir w in
      let store = B.open_db opts made.1 in
      elim (Result-cases made.0) [
        | inr (e, refused) ↦
            Leaves-subst others _ (some (err (wrap "honeybadger: create badger dir" e), r, made.1))
              (ground arith) (has, kept)
        | inl (_, there) ↦ elim (Result-cases store.0) [
          | inr (e, refused) ↦
              Leaves-subst others _ (some (err (wrap "honeybadger: open badger" e), r, store.1))
                (ground arith) (has, omega (arith, D.open_dbs-open_failed opts made.1 e refused))
          | inl (d, opens) ↦
              let o : Opening B R = record {
                node = fresh_node opts d;
                raft = r;
                world = store.1;
              } in
              let x = open_raft G H cfg addr new_cluster start polls o in
              Leaves-subst others _ (finish_open G H cfg (on_failure drop_store x)) (ground arith) (
                finish_open-Leaves others cfg x (
                  open_raft-Ends G D P others cfg addr new_cluster start polls o has
                    (omega (arith, D.open_dbs-open_db opts made.1 d opens, kept))))
        ]
      ]

  -- `Open` on a process that holds nothing of Raft yet leaves nothing behind where it returns an
  -- error, at whatever step: no log store, no transport and no Raft instance is left, and as many
  -- databases are open as before. Where it returns a node, that node holds all three, and besides
  -- the databases that were open before, its store is open. (It may still wait for a leader.)
  pub open_db-Leaves :
      (config : Config B.Tuning) (options : List OpenOption) (start : ℕ) (polls : ℕ → Poll)
      (r : R.State) (w : B.World)
      → P.parts r ≡ no_parts
      → Leaves (D.open_dbs w) (open_db G H config options start polls r w)
  unfolding open_db resolve_advertise
  open_db-Leaves config options start polls r w has =
      let others = D.open_dbs w in
      let cfg = set_defaults config in
      let advertise = resolve_advertise G H cfg r in
      let kept : P.parts advertise.1 ≡ no_parts =
        ground (arith, P.parts-resolve cfg.advanced.raft_advertise r) in
      elim (Result-cases (parse_open_options options)) [
        | inr (e, refused) ↦ Leaves-subst others _ (some (err e, r, w)) (ground arith) (has, refl)
        | inl (new_cluster, parsed) ↦ elim (Result-cases (validate_config config)) [
          | inr (e, refused) ↦ Leaves-subst others _ (some (err e, r, w)) (ground arith) (has, refl)
          | inl (_, valid) ↦ elim (Result-cases advertise.0) [
            | inr (e, refused) ↦
                Leaves-subst others _ (some (err e, advertise.1, w)) (ground arith) (kept, refl)
            | inl (addr, resolved) ↦
                Leaves-subst others _
                  (open_store G H cfg addr new_cluster start polls advertise.1 w) (ground arith)
                  (open_store-Leaves cfg addr new_cluster start polls advertise.1 w kept)
          ]
        ]
      ]
