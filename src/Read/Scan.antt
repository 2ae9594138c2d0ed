-- ===== src/Read/Scan.antt =====
-- The prefix scan against its description: the visible items whose keys have the prefix, in key
-- order, up to the limit.
use honeybadger.Base.{
  ℕ-cases, sym, length-take, ◌≤◌, is_zero, Option-cases, some, ℕ, suc, ◌-◌, Bytes, has_prefix, ltb,
  leb, ◌==◌, ◌&&◌, ◌≡◌, refl, ◌∙◌, ap, true, false, length, length-append, take, keep, List, [],
  ◌∷◌, ◌++◌, arith, inl, inr, Bool-cases, if◌then◌else◌,
}
use mathlib.Core.List.{append-nil, append_assoc}
use honeybadger.Base.Order.{with_prefix, with_prefix-skip}
use honeybadger.Errors.{bind-eq-ok, Result, ok, err, Result-cases, ◌>>=◌}
use honeybadger.Badger.{Badger, TxnLaws, ReadLaws}
use honeybadger.Raft.{Raft}
use honeybadger.Command.{Gob}
use honeybadger.Options.{ScanOptions, resolve_limit, to_ℕ}
use honeybadger.Node.{with_store}
use honeybadger.Db.{Db}
use honeybadger.Read.{ScanEntry, scan_loop, scan_txn, prepare_read, scan_prefix_bytes}

-- The first `limit` elements; 0 stands for no limit.
abbrev pub up_to : {A : Type 0} → ℕ → List A → List A
up_to limit xs = if limit == 0 then xs else take limit xs

length-snoc : (xs : List ScanEntry) (x : ScanEntry) → length (xs ++ (x ∷ [])) ≡ suc (length xs)
length-snoc xs x = omega (arith, length-append xs (x ∷ []))

minus_zero : (n : ℕ) → n - 0 ≡ n
minus_zero n = omega arith

module _ (B : Badger) where
  -- The entries of some items, or the first error of a value.
  unfoldable pub copy_items : List B.ItemRef → Result (List ScanEntry)
  copy_items [] = ok []
  copy_items (item ∷ items) = do
    value ← B.value_copy item
    entries ← copy_items items
    ok (record { key = B.key_copy item; value = value } ∷ entries)

  -- What is left of the limit after `n` entries.
  abbrev pub remaining : ℕ → ℕ → List B.ItemRef → List B.ItemRef
  remaining limit n items = if limit == 0 then items else take (limit - n) items

  abbrev prepend : List ScanEntry → Result (List ScanEntry) → Result (List ScanEntry)
  prepend entries (ok more) = ok (entries ++ more)
  prepend entries (err e) = err e

  remaining-nil : (limit n : ℕ) → remaining limit n [] ≡ []
  remaining-nil limit n = elim (ℕ-cases (limit - n)) [
    | inl none_left ↦ ground arith
    | inr (m, some_left) ↦ ground arith
  ]

  remaining_full :
      (limit n : ℕ) (items : List B.ItemRef)
      → (ltb 0 limit && leb limit n) ≡ true
      → remaining limit n items ≡ []
  remaining_full limit n items full = let e : limit - n ≡ 0 = ground arith in rw e (ground arith)

  remaining_more :
      (limit n : ℕ) (item : B.ItemRef) (items : List B.ItemRef)
      → (ltb 0 limit && leb limit n) ≡ false
      → remaining limit n (item ∷ items) ≡ item ∷ remaining limit (suc n) items
  remaining_more limit n item items room = elim (Bool-cases (limit == 0)) [
    | inl unlimited ↦ rw unlimited refl
    | inr limited ↦ let e : limit - n ≡ suc (limit - suc n) = ground arith in rw (limited, e) refl
  ]

  prepend-snoc :
      (entries : List ScanEntry) (e : ScanEntry) (r : Result (List ScanEntry))
      → prepend (entries ++ (e ∷ [])) r ≡ prepend entries (r >>= λ more. ok (e ∷ more))
  prepend-snoc entries e (ok more) = ap ok (append_assoc entries (e ∷ []) more)
  prepend-snoc entries e (err e') = refl

  prepend-nil : (r : Result (List ScanEntry)) → prepend [] r ≡ r
  prepend-nil (ok more) = refl
  prepend-nil (err e) = refl

  -- The loop goes on with what is left of the limit, over the items that have the prefix.
  scan_loop_lem :
      (prefix : Bytes) (limit : ℕ) (items : List B.ItemRef) (entries : List ScanEntry)
      → scan_loop B prefix limit items entries
        ≡ prepend entries
            (copy_items (remaining limit (length entries) (with_prefix B.key_copy prefix items)))
  unfolding scan_loop with_prefix copy_items
  scan_loop_lem prefix limit [] entries = rw remaining-nil (rw append-nil)
  scan_loop_lem prefix limit (item ∷ items) entries =
      let n = length entries in
      elim (Bool-cases (has_prefix prefix (B.key_copy item))) [
        | inr outside ↦ rw (outside, remaining-nil) (rw append-nil)
        | inl inside ↦ elim (Bool-cases (ltb 0 limit && leb limit n)) [
          | inl full ↦ rw (inside, full, remaining_full limit n _ full) (rw append-nil)
          | inr room ↦ elim (Result-cases (B.value_copy item)) [
            | inr (e, failed) ↦ rw (inside, room, remaining_more limit n item _ room, failed) refl
            | inl (value, copied) ↦
                let e : ScanEntry = record { key = B.key_copy item; value = value } in
                let more = with_prefix B.key_copy prefix items in
                rw (inside, room, remaining_more limit n item more room, copied)
                  (scan_loop_lem prefix limit items (entries ++ (e ∷ []))
                    ∙ rw (length-snoc entries e)
                        (prepend-snoc entries e (copy_items (remaining limit (suc n) more))))
          ]
        ]
      ]

length-copy_items :
    (B : Badger) (items : List B.ItemRef) (es : List ScanEntry)
    → copy_items B items ≡ ok es
    → length es ≡ length items
unfolding copy_items
length-copy_items B [] es h = ground arith
length-copy_items B (item ∷ items) es h =
    let (value, copied, rest) = bind-eq-ok (B.value_copy item) _ h in
    let (more, read, same) = bind-eq-ok (copy_items B items) _ rest in
    ground (arith, length-copy_items B items more read)

module _ (B : Badger) (L : TxnLaws B) (Q : ReadLaws B L) where
  -- A scan returns the entries of exactly the visible items whose keys have the prefix, in key
  -- order and cut off after the limit (0 for none), or the error of the first value among them that
  -- cannot be read.
  pub scan_txn_lem :
      (prefix : Bytes) (limit : ℕ) (t : B.Txn)
      → scan_txn B prefix limit t
        ≡ copy_items B
            (up_to limit (keep (λ item. has_prefix prefix (B.key_copy item)) (Q.all_items t)))
  unfolding scan_txn
  scan_txn_lem prefix limit t =
      rw
        (
          scan_loop_lem B prefix limit (B.seek t prefix) [],
          Q.seek_skips t prefix,
          with_prefix-skip B.key_copy prefix (Q.all_items t) (Q.items-IsAscending t),
        )
        (rw (minus_zero limit) (prepend-nil B _))

  module _ (R : Raft) (G : Gob) where
    -- A scan that returns entries has read them in the node's live store, as that is after the
    -- barrier where the scan is linearizable: they are the entries of the visible items whose keys
    -- have the prefix, in key order, up to the resolved limit.
    pub scan_prefix_bytes_ok :
        (prefix : Bytes) (so : ScanOptions) (db : Db B R) (es : List ScanEntry)
        → (scan_prefix_bytes G prefix so db).0 ≡ ok es
        → (d : B.Db) × ((scan_prefix_bytes G prefix so db).1.node.store ≡ some d)
          × ((limit : ℕ) × (resolve_limit so ≡ ok limit)
              × (copy_items B (
                    up_to limit (
                      keep (λ item. has_prefix prefix (B.key_copy item)) (Q.all_items (L.begin d))))
                  ≡ ok es))
    unfolding scan_prefix_bytes with_store
    scan_prefix_bytes_ok prefix so db es h = elim (Result-cases (resolve_limit so)) [
      | inr (e, failed) ↦ absurd (ground arith)
      | inl (limit, resolved) ↦
          let n = (prepare_read G so.read db).1.node in
          elim (Result-cases (prepare_read G so.read db).0) [
            | inr (e, failed) ↦ absurd (ground arith)
            | inl (_, passed) ↦ elim (Bool-cases n.closed) [
              | inl is_closed ↦ absurd (ground arith)
              | inr is_open ↦ elim (Option-cases n.store) [
                | inl gone ↦ absurd (ground arith)
                | inr (d, live) ↦
                    let got : scan_txn B prefix limit (L.begin d) ≡ ok es =
                      ground (arith, Q.view_runs (scan_txn B prefix limit) d) in
                    (
                      d,
                      ground arith,
                      (limit, resolved, sym (scan_txn_lem prefix limit (L.begin d)) ∙ got),
                    )
              ]
            ]
          ]
    ]

    -- A scan that is not unlimited returns at most its limit of entries, 100 where that is 0.
    pub scan_bounded :
        (prefix : Bytes) (so : ScanOptions) (db : Db B R) (es : List ScanEntry)
        → so.unlimited ≡ false
        → (scan_prefix_bytes G prefix so db).0 ≡ ok es
        → length es ≤ (if is_zero so.limit then 100 else to_ℕ so.limit)
    unfolding resolve_limit
    scan_bounded prefix so db es limited h =
        let (d, live, (limit, resolved, copied)) = scan_prefix_bytes_ok prefix so db es h in
        let hits = keep (λ item. has_prefix prefix (B.key_copy item)) (Q.all_items (L.begin d)) in
        ground (arith, length-copy_items B (up_to limit hits) es copied, length-take limit hits)
