-- ===== src/Demo/Shown.antt =====
-- examples/three-node/main.go: what `demoReads` shows of a follower that replays the demo's log.
use honeybadger.Base.{
  bytes_eq, has_prefix, ℕ, Bytes, codes, ◌≡◌, refl, sym, subst, ap, ◌∙◌, List, [], ◌∷◌, Option,
  none, some, ◌==◌, ◌||◌, ltb, arith, inl, inr, Bool-cases, All,
}
use honeybadger.Errors.{ok, Result-cases}
use honeybadger.Badger.{Badger, Stored, TxnLaws, ReadLaws, visible}
use honeybadger.Raft.{Raft}
use honeybadger.Command.{Gob}
use honeybadger.Db.{Db}
use honeybadger.Read.{ScanEntry, scan_prefix_bytes}
use honeybadger.Read.Point.{read_clock}
use honeybadger.Read.Complete.{Lists, scan_complete}
use honeybadger.Read.Hits.{IsHit, scan_hits}
use honeybadger.Open.{Host}
use honeybadger.Demo.{Scene, meanwhile}
use honeybadger.Demo.Script.{View, user_scan, scan_later, demo_reads}
use honeybadger.Demo.Waits.{Yields, and_then-Yields}
use honeybadger.Demo.Log.{demo_log, replayed, IsUser, replayed-IsUser}
use honeybadger.Demo.Reads.{
  Replays, IsBehind, IsWhole, contents_live, meanwhile-IsWhole, first_wait-Yields,
  second_wait-Yields, read_later-Yields,
}
use honeybadger.Options.{resolve_limit}
use honeybadger.Command.Effect.{written, last_pair, after, after_log}
use honeybadger.Demo.FollowerSteps.{scan_local}

stored_of_visible : (now : ℕ) (x : Option Stored) (v : Stored) → visible now x ≡ some v → x ≡ some v
stored_of_visible now none v h = absurd (ground arith)
stored_of_visible now (some w) v h =
    ground (arith, Bool-cases ((w.expires_at == 0) || ltb now w.expires_at))

All-map :
    {A : Type 0} (P P' : A → Type 0) (xs : List A) → ((x : A) → P x → P' x) → All P xs → All P' xs
All-map P P' [] f all = tt
All-map P P' (x ∷ xs) f (p, all) = (f x p, All-map P P' xs f all)

user_scan_unlimited : resolve_limit user_scan ≡ ok 0
unfolding resolve_limit
user_scan_unlimited = refl

replayed_users :
    (expiry : ℕ)
    → (replayed (demo_log expiry) (codes "user:2")
        ≡ some (record { value = codes "grace"; expires_at = 0 }))
      × (replayed (demo_log expiry) (codes "user:3")
          ≡ some (record { value = codes "edsger"; expires_at = 0 }))
unfolding after_log after written last_pair bytes_eq
replayed_users expiry = (refl, refl)

module _ (G : Gob) {B : Badger} (L : TxnLaws B) (Q : ReadLaws B L) {R : Raft} (H : Host B R)
    (expiry : ℕ) (F : Replays G L H (demo_log expiry)) where
  -- What a scan of the users shows: user:2 = "grace" and user:3 = "edsger", and no other entries.
  pub record AreUsers (entries : List ScanEntry) : Type 0 where
    pub only : All (λ e. IsUser e.key e.value) entries
    pub second : Lists B L Q (codes "user:2") (codes "grace") entries
    pub third : Lists B L Q (codes "user:3") (codes "edsger") entries

  -- A hit of a scan of the users.
  hit-IsUser :
      (db : Db B R) (w : B.World) (d : B.Db) (e : ScanEntry)
      → F.At (demo_log expiry) (db, w)
      → db.node.store ≡ some d
      → IsHit B L Q d (codes "user:") e
      → IsUser e.key e.value
  hit-IsUser db w d e whole live (has, (v, seen, value)) =
      let at = F.At-contents (demo_log expiry) db w whole e.key in
      let held = stored_of_visible (read_clock B L Q d) (L.stored d e.key) v seen in
      let user =
        replayed-IsUser expiry e.key v has (sym at ∙ contents_live L db.node d e.key live ∙ held) in
      subst (IsUser e.key) value user

  shown-AreUsers :
      (db : Db B R) (w : B.World) (entries : List ScanEntry)
      → F.At (demo_log expiry) (db, w)
      → (scan_prefix_bytes G (codes "user:") user_scan db).0 ≡ ok entries
      → AreUsers entries
  unfolding has_prefix
  shown-AreUsers db w entries at got =
      let same = ap (λ (y : Db B R). y.node.store) (sym (scan_local G (codes "user:") db)) in
      let (d, live, hits) = scan_hits B L Q R G (codes "user:") user_scan db entries got in
      let (d', live', complete) =
        scan_complete B L Q R G (codes "user:") user_scan db entries user_scan_unlimited got in
      let holds : (k : Bytes) → L.stored d' k ≡ replayed (demo_log expiry) k = λ k.
        sym (contents_live L db.node d' k (same ∙ live'))
        ∙ F.At-contents (demo_log expiry) db w at k in
      record {
        only =
            All-map (IsHit B L Q d (codes "user:")) (λ e. IsUser e.key e.value) entries
              (λ e hit. hit-IsUser db w d e at (same ∙ live) hit) hits;
        second = complete (codes "user:2") _ refl (
            ap (visible (read_clock B L Q d'))
              (holds (codes "user:2") ∙ (replayed_users expiry).0));
        third = complete (codes "user:3") _ refl (
            ap (visible (read_clock B L Q d'))
              (holds (codes "user:3") ∙ (replayed_users expiry).1));
      }

  scan_later-Yields :
      (s : Scene G H)
      → IsWhole G L Q H expiry F s
      → Yields (λ entries _. AreUsers entries) (scan_later G H s)
  unfolding scan_later
  scan_later-Yields s whole =
      let later = meanwhile G H s in
      let at = meanwhile-IsWhole G L Q H expiry F s whole in
      let x = scan_prefix_bytes G (codes "user:") user_scan later.0 in
      elim (Result-cases x.0) [
        | inr (e, failed) ↦ rw failed tt
        | inl (entries, got) ↦ rw got (shown-AreUsers later.0 later.1 entries at got)
      ]

  -- Where demoReads returns nil on a follower that replays the log of the demo's writes, and has
  -- replayed any part of it, then its scan shows user:2 = "grace" and user:3 = "edsger", and no
  -- other entries: neither user:1, which was deleted, nor the session.
  pub demo_reads-AreUsers :
      (view : View) (s : Scene G H)
      → IsBehind G L Q H expiry F s
      → Yields (λ entries _. AreUsers entries) (demo_reads G H view s)
  unfolding demo_reads
  demo_reads-AreUsers view s behind =
      and_then-Yields (λ _. IsWhole G L Q H expiry F) _ _ _
        (first_wait-Yields G L Q H expiry F view s behind)
        λ _ s₁ whole₁.
          and_then-Yields (λ _. IsWhole G L Q H expiry F) _ _ _
            (read_later-Yields G L Q H expiry F (codes "user:2") s₁ whole₁)
            λ _ s₂ whole₂.
              and_then-Yields (λ _. IsWhole G L Q H expiry F) _ _ _
                (second_wait-Yields G L Q H expiry F view s₂ whole₂)
                λ _ s₃ whole₃. scan_later-Yields s₃ whole₃
