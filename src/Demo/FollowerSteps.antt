-- ===== src/Demo/FollowerSteps.antt =====
-- examples/three-node/main.go: the part of the demo on the follower, and what it leaves of the node.
use honeybadger.Base.{ℕ, Bytes, codes, ◌≡◌, refl, arith, inl, inr, Bool-cases}
use honeybadger.Errors.{Result-cases}
use honeybadger.Badger.{Badger}
use honeybadger.Raft.{Raft}
use honeybadger.Command.{Gob}
use honeybadger.Db.{Db}
use honeybadger.Node.{check_open}
use honeybadger.Options.{resolve_limit}
use honeybadger.Read.Point.{get_bytes_local}
use honeybadger.Read.{get_bytes, prepare_read, prepare_mode, scan_prefix_bytes}
use honeybadger.Handles.{HandleLaws}
use honeybadger.Open.{Host}
use honeybadger.Open.Laws.{HostLaws}
use honeybadger.Demo.{local_reads, sees_value, misses_key, sees_key, Scene, meanwhile}
use honeybadger.Demo.Script.{
  View, user_scan, read_later, scan_later, demo_reads, demo_ttl, demo_follower,
}
use honeybadger.Demo.Waits.{After}
use honeybadger.Demo.Calls.{CallLaws, IsKept, IsKept-refl}
use honeybadger.Demo.Leaves.{and_then-After, IsUp, call-IsUp, meanwhile-IsUp, wait_on-IsUp}

-- A local scan changes nothing.
pub scan_local :
    (G : Gob) {B : Badger} {R : Raft} (prefix : Bytes) (db : Db B R)
    → (scan_prefix_bytes G prefix user_scan db).1 ≡ db
unfolding scan_prefix_bytes prepare_read prepare_mode check_open
scan_local G prefix db = elim (Result-cases (resolve_limit user_scan)) [
  | inr (e, refused) ↦ ground arith
  | inl (limit, resolved) ↦ ground (arith, Bool-cases db.node.closed)
]

module _ (G : Gob) {B : Badger} {R : Raft} {H : Host B R} (D : HandleLaws B) {P : HostLaws H}
    (C : CallLaws P) where
  module _ (others : ℕ) where
    sees_value-IsKept :
        (key value : Bytes) (db : Db B R) → IsKept C db (sees_value G key value db).1
    unfolding sees_value
    sees_value-IsKept key value db = IsKept-refl C db _ (get_bytes_local G key local_reads db refl)

    misses_key-IsKept : (key : Bytes) (db : Db B R) → IsKept C db (misses_key G key db).1
    unfolding misses_key
    misses_key-IsKept key db = IsKept-refl C db _ (get_bytes_local G key local_reads db refl)

    sees_key-IsKept : (key : Bytes) (db : Db B R) → IsKept C db (sees_key G key db).1
    unfolding sees_key
    sees_key-IsKept key db = IsKept-refl C db _ (get_bytes_local G key local_reads db refl)

    -- A local read after a while.
    read_later-IsUp :
        (key : Bytes) (s : Scene G H)
        → IsUp G D C others s
        → After (IsUp G D C others) (read_later G H key s)
    unfolding read_later
    read_later-IsUp key s up =
        let later = meanwhile G H s in
        call-IsUp G D C others later.1
          (IsKept-refl C later.0 _ (get_bytes_local G key local_reads later.0 refl))
          (meanwhile-IsUp G D C others s up)

    scan_later-IsUp :
        (s : Scene G H) → IsUp G D C others s → After (IsUp G D C others) (scan_later G H s)
    unfolding scan_later
    scan_later-IsUp s up =
        let later = meanwhile G H s in
        call-IsUp G D C others later.1
          (IsKept-refl C later.0 _ (scan_local G (codes "user:") later.0))
          (meanwhile-IsUp G D C others s up)

    demo_reads-IsUp :
        (view : View) (s : Scene G H)
        → IsUp G D C others s
        → After (IsUp G D C others) (demo_reads G H view s)
    unfolding demo_reads
    demo_reads-IsUp view s up =
        and_then-After (IsUp G D C others) _ _
          (wait_on-IsUp G D C others _ view.replicates s
            (sees_value-IsKept (codes "user:2") (codes "grace")) up)
          λ _ s₁ up₁.
            and_then-After (IsUp G D C others) _ _ (read_later-IsUp (codes "user:2") s₁ up₁)
              λ _ s₂ up₂.
                and_then-After (IsUp G D C others) _ _
                  (wait_on-IsUp G D C others _ view.deletes s₂ (misses_key-IsKept (codes "user:1"))
                    up₂)
                  λ _ s₃ up₃. scan_later-IsUp s₃ up₃

    demo_ttl-IsUp :
        (view : View) (s : Scene G H)
        → IsUp G D C others s
        → After (IsUp G D C others) (demo_ttl G H view s)
    unfolding demo_ttl
    demo_ttl-IsUp view s up =
        and_then-After (IsUp G D C others) _ _
          (wait_on-IsUp G D C others _ view.session s (sees_key-IsKept (codes "session:xyz")) up)
          λ _ s₁ up₁.
            let key = codes "session:xyz" in
            let later = meanwhile G H s₁ in
            let read =
              call-IsUp G D C others later.1
                (IsKept-refl C later.0 _ (get_bytes_local G key local_reads later.0 refl))
                (meanwhile-IsUp G D C others s₁ up₁) in
            let s₂ : Scene G H = ((get_bytes G key local_reads later.0).1, later.1) in
            let last = meanwhile G H s₂ in
            call-IsUp G D C others last.1
              (IsKept-refl C last.0 _ (get_bytes_local G key local_reads last.0 refl))
              (meanwhile-IsUp G D C others s₂ read)

    pub demo_follower-IsUp :
        (view : View) (s : Scene G H)
        → IsUp G D C others s
        → After (IsUp G D C others) (demo_follower G H view s)
    demo_follower-IsUp view s up =
        and_then-After (IsUp G D C others) (demo_reads G H view s) _ (demo_reads-IsUp view s up)
          λ entries s' up'. demo_ttl-IsUp view s' up'
