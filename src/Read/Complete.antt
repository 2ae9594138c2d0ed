-- ===== src/Read/Complete.antt =====
-- What an unlimited scan does not leave out.
use honeybadger.Base.{
  All, ◌≡◌, Bytes, bytes_eq, bytes_eq_iff, has_prefix, refl, subst, sym, ap, ◌∙◌, ◌⊎◌, true, Bool,
  some, List, [], ◌∷◌, keep, Bool-cases, Option-cases, arith, inl, inr,
}
use honeybadger.Errors.{ok, bind-eq-ok}
use honeybadger.Badger.{Badger, Stored, TxnLaws, ReadLaws, visible, find_item}
use honeybadger.Raft.{Raft}
use honeybadger.Command.{Gob}
use honeybadger.Options.{ScanOptions, resolve_limit}
use honeybadger.Db.{Db}
use honeybadger.Read.{ScanEntry, scan_prefix_bytes}
use honeybadger.Read.Point.{read_clock}
use honeybadger.Read.Hits.{IsHit, scan_hits}
use honeybadger.Read.Scan.{copy_items, up_to, scan_prefix_bytes_ok}

-- Some element of a list has a property.
abbrev pub Any : {A : Type 0} → (A → Type 0) → List A → Type 0
Any P [] = ⊥
Any P (x ∷ xs) = P x ⊎ Any P xs

key_of_found :
    {A : Type 0} (key : A → Bytes) (k : Bytes) (xs : List A) (x : A)
    → find_item key k xs ≡ some x
    → key x ≡ k
unfolding find_item
key_of_found key k [] x found = absurd (ground arith)
key_of_found key k (y ∷ xs) x found = elim (Bool-cases (bytes_eq (key y) k)) [
  | inl here ↦
      let same : y ≡ x = ground arith in ap key (sym same) ∙ (bytes_eq_iff (key y) k).0 here
  | inr elsewhere ↦ key_of_found key k xs x (ground arith)
]

module _ (B : Badger) where
  -- Of the items that pass a test and are copied, the one that a key finds is there.
  Any-copy_items :
      (q : B.ItemRef → Bool) (k : Bytes) (items : List B.ItemRef) (r : B.ItemRef)
      (es : List ScanEntry)
      → find_item B.key_copy k items ≡ some r
      → q r ≡ true
      → copy_items B (keep q items) ≡ ok es
      → (b : Bytes) × (B.value_copy r ≡ ok b) × Any (λ e. (e.key ≡ k) × (e.value ≡ b)) es
  unfolding copy_items find_item
  Any-copy_items q k [] r es found passes h = absurd (ground arith)
  Any-copy_items q k (item ∷ items) r es found passes h =
      elim (Bool-cases (bytes_eq (B.key_copy item) k)) [
        | inl here ↦
            let same : item ≡ r = ground arith in
            let kept : q item ≡ true = ap q same ∙ passes in
            let all : copy_items B (item ∷ keep q items) ≡ ok es = ground arith in
            let (value, copied, rest) = bind-eq-ok (B.value_copy item) _ all in
            let (more, read, whole) = bind-eq-ok (copy_items B (keep q items)) _ rest in
            let e : es ≡ record { key = B.key_copy item; value = value } ∷ more = ground arith in
            (
              value,
              ap B.value_copy (sym same) ∙ copied,
              rw e (inl ((bytes_eq_iff (B.key_copy item) k).0 here, refl)),
            )
        | inr elsewhere ↦
            let later : find_item B.key_copy k items ≡ some r = ground arith in
            elim (Bool-cases (q item)) [
              | inr out ↦ Any-copy_items q k items r es later passes (ground arith)
              | inl kept ↦
                  let all : copy_items B (item ∷ keep q items) ≡ ok es = ground arith in
                  let (value, copied, rest) = bind-eq-ok (B.value_copy item) _ all in
                  let (more, read, whole) = bind-eq-ok (copy_items B (keep q items)) _ rest in
                  let e : es ≡ record { key = B.key_copy item; value = value } ∷ more =
                    ground arith in
                  let (b, copied', there) = Any-copy_items q k items r more later passes read in
                  (b, copied', rw e (inr there))
            ]
      ]

module _ (B : Badger) (L : TxnLaws B) (Q : ReadLaws B L) where
  -- An entry of a scan for a key and its value.
  abbrev pub Lists : Bytes → Bytes → List ScanEntry → Type 0
  Lists key value = Any (λ e. (e.key ≡ key) × (e.value ≡ value))

  -- A scan without a limit that returns entries lists every key with the prefix under which the
  -- node's live store holds something visible, with its value; as the store is after the barrier
  -- where the scan is linearizable.
  pub scan_complete :
      (R : Raft) (G : Gob) (prefix : Bytes) (so : ScanOptions) (db : Db B R) (es : List ScanEntry)
      → resolve_limit so ≡ ok 0
      → (scan_prefix_bytes G prefix so db).0 ≡ ok es
      → (d : B.Db) × ((scan_prefix_bytes G prefix so db).1.node.store ≡ some d)
        × ((k : Bytes) (v : Stored)
            → has_prefix prefix k ≡ true
            → visible (read_clock B L Q d) (L.stored d k) ≡ some v
            → Lists k v.value es)
  scan_complete R G prefix so db es unlimited h =
      let (d, live, (limit, resolved, copied)) = scan_prefix_bytes_ok B L Q R G prefix so db es h in
      let t = L.begin d in
      let items = Q.all_items t in
      let q : B.ItemRef → Bool = λ item. has_prefix prefix (B.key_copy item) in
      let none_left : limit ≡ 0 = ground arith in
      let all : copy_items B (keep q items) ≡ ok es =
        ap (λ n. copy_items B (up_to n (keep q items))) (sym none_left) ∙ copied in
      (
        d,
        live,
        λ k v has seen. elim (Option-cases (find_item B.key_copy k items)) [
          | inl missing ↦ absurd (ground (arith, Q.item_absent t k missing, L.seen-begin d k))
          | inr (r, found) ↦
              let passes : q r ≡ true =
                ap (has_prefix prefix) (key_of_found B.key_copy k items r found) ∙ has in
              let (b, read, there) = Any-copy_items B q k items r es found passes all in
              let (v', seen', same) = Q.item_present t k r b found read in
              let this : v' ≡ v = ground (arith, L.seen-begin d k) in
              let value : b ≡ v.value = sym same ∙ ap (λ (x : Stored). x.value) this in
              subst (λ x. Lists k x es) value there
        ],
      )

  -- A scan without a limit that returns entries lists exactly what is visible under the prefix:
  -- every entry has the prefix and is what the node's live store holds, visible, under its key; and
  -- every key with the prefix under which the store holds something visible has an entry with its
  -- value. The store is that after the barrier where the scan is linearizable.
  pub scan_exact :
      (R : Raft) (G : Gob) (prefix : Bytes) (so : ScanOptions) (db : Db B R) (es : List ScanEntry)
      → resolve_limit so ≡ ok 0
      → (scan_prefix_bytes G prefix so db).0 ≡ ok es
      → (d : B.Db) × ((scan_prefix_bytes G prefix so db).1.node.store ≡ some d)
        × All (IsHit B L Q d prefix) es
        × ((k : Bytes) (v : Stored)
            → has_prefix prefix k ≡ true
            → visible (read_clock B L Q d) (L.stored d k) ≡ some v
            → Lists k v.value es)
  scan_exact R G prefix so db es unlimited h =
      let (d, live, hits) = scan_hits B L Q R G prefix so db es h in
      let (d', live', complete) = scan_complete R G prefix so db es unlimited h in
      let same : d' ≡ d = ground arith in
      (
        d,
        live,
        hits,
        subst
            (λ x.
              (k : Bytes) (v : Stored)
              → has_prefix prefix k ≡ true
              → visible (read_clock B L Q x) (L.stored x k) ≡ some v
              → Lists k v.value es)
            same complete,
      )
