-- ===== src/Read/Hits.antt =====
-- What a scan returns, in terms of what the live store holds.
use honeybadger.Base.{
  ℕ, zero, suc, ◌==◌, Bytes, bytes_eq_iff, bytes_eq_refl, has_prefix, IsBelow, IsAscending, ◌≡◌,
  true, some, List, [], ◌∷◌, map, keep, take, All, Bool, Bool-cases, arith, inl, inr,
}
use honeybadger.Base.Order.{bytes_lt_irrefl}
use honeybadger.Errors.{ok, bind-eq-ok}
use honeybadger.Badger.{Badger, Stored, TxnLaws, ReadLaws, visible, find_item}
use honeybadger.Raft.{Raft}
use honeybadger.Command.{Gob}
use honeybadger.Options.{ScanOptions}
use honeybadger.Db.{Db}
use honeybadger.Read.{ScanEntry, scan_prefix_bytes}
use honeybadger.Read.Point.{read_clock}
use honeybadger.Read.Scan.{copy_items, up_to, scan_prefix_bytes_ok}

module _ {A : Type 0} where
  All-keep :
      (P : A → Type 0) (q : A → Bool) (xs : List A)
      → All P xs
      → All (λ x. P x × (q x ≡ true)) (keep q xs)
  All-keep P q [] all = tt
  All-keep P q (x ∷ xs) (p, all) = elim (Bool-cases (q x)) [
    | inl kept ↦ rw kept ((p, kept), All-keep P q xs all)
    | inr out ↦ rw out (All-keep P q xs all)
  ]

  All-take : (P : A → Type 0) (n : ℕ) (xs : List A) → All P xs → All P (take n xs)
  All-take P zero xs all = tt
  All-take P (suc n) [] all = tt
  All-take P (suc n) (x ∷ xs) (p, all) = (p, All-take P n xs all)

  All-up_to : (P : A → Type 0) (n : ℕ) (xs : List A) → All P xs → All P (up_to n xs)
  All-up_to P n xs all = elim (Bool-cases (n == 0)) [
    | inl unlimited ↦ rw unlimited all
    | inr limited ↦ rw limited (All-take P n xs all)
  ]

  module _ (key : A → Bytes) where
    find_past :
        (x : A) (xs ys : List A)
        → IsBelow (key x) (map key ys)
        → All (λ y. find_item key (key y) xs ≡ some y) ys
        → All (λ y. find_item key (key y) (x ∷ xs) ≡ some y) ys
    unfolding find_item
    find_past x xs [] below all = tt
    find_past x xs (y ∷ ys) (lt, below) (found, all) = (
      ground (arith, found, bytes_eq_iff (key x) (key y), bytes_lt_irrefl (key x)),
      find_past x xs ys below all,
    )

    -- In ascending order each element is the one that its key finds.
    finds_each :
        (xs : List A) → IsAscending (map key xs) → All (λ x. find_item key (key x) xs ≡ some x) xs
    unfolding find_item
    finds_each [] asc = tt
    finds_each (x ∷ xs) (below, asc) =
        (ground (arith, bytes_eq_refl (key x)), find_past x xs xs below (finds_each xs asc))

-- What holds of each item and its value holds of the entries.
All-copy_items :
    (B : Badger) (P : B.ItemRef → Type 0) (Q : ScanEntry → Type 0)
    → ((item : B.ItemRef) (value : Bytes)
        → P item
        → B.value_copy item ≡ ok value
        → Q (record { key = B.key_copy item; value = value }))
    → (items : List B.ItemRef) (es : List ScanEntry) → All P items
    → copy_items B items ≡ ok es
    → All Q es
unfolding copy_items
All-copy_items B P Q step [] es all h = let e : es ≡ [] = ground arith in rw e tt
All-copy_items B P Q step (item ∷ items) es (p, all) h =
    let (value, copied, rest) = bind-eq-ok (B.value_copy item) _ h in
    let (more, read, same) = bind-eq-ok (copy_items B items) _ rest in
    let e : es ≡ record { key = B.key_copy item; value = value } ∷ more = ground arith in
    rw e (step item value p copied, All-copy_items B P Q step items more all read)

module _ (B : Badger) (L : TxnLaws B) (Q : ReadLaws B L) where
  -- A hit of a scan: its key has the prefix, and its value is what is visible under the key.
  abbrev pub IsHit : B.Db → Bytes → ScanEntry → Type 0
  IsHit d prefix e =
      (has_prefix prefix e.key ≡ true)
      × ((v : Stored) × (visible (read_clock B L Q d) (L.stored d e.key) ≡ some v)
          × (v.value ≡ e.value))

  -- Every entry of a scan has the prefix, and is what the node's live store holds, visible, under
  -- its key, as the store is after the barrier where the scan is linearizable.
  pub scan_hits :
      (R : Raft) (G : Gob) (prefix : Bytes) (so : ScanOptions) (db : Db B R) (es : List ScanEntry)
      → (scan_prefix_bytes G prefix so db).0 ≡ ok es
      → (d : B.Db) × ((scan_prefix_bytes G prefix so db).1.node.store ≡ some d)
        × All (IsHit d prefix) es
  scan_hits R G prefix so db es h =
      let (d, live, (limit, resolved, copied)) = scan_prefix_bytes_ok B L Q R G prefix so db es h in
      let items = Q.all_items (L.begin d) in
      let q : B.ItemRef → Bool = λ item. has_prefix prefix (B.key_copy item) in
      let P : B.ItemRef → Type 0 =
        λ item. find_item B.key_copy (B.key_copy item) items ≡ some item in
      (
        d,
        live,
        All-copy_items B (λ item. P item × (q item ≡ true)) (IsHit d prefix)
            (λ item value (found, has) copied.
              let (v, seen, same) =
                Q.item_present (L.begin d) (B.key_copy item) item value found copied in
              (has, (v, ground (arith, L.seen-begin d (B.key_copy item)), same)))
            (up_to limit (keep q items)) es
            (All-up_to _ limit (keep q items)
              (All-keep P q items (finds_each B.key_copy items (Q.items-IsAscending (L.begin d)))))
            copied,
      )
