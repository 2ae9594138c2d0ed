-- ===== src/Memory/Reads.antt =====
-- Reads over the implementation in memory meet the laws that the model assumes of reads.
use honeybadger.Base.{
  Bytes, bytes_eq, bytes_eq_iff, bytes_lt, IsBelow, IsAscending, ◌≡◌, refl, ◌∙◌, ◌||◌, ◌==◌, ltb,
  ap, true, false, none, some, [], ◌∷◌, map, keep, Bool-cases, Option-cases, inl, inr, arith, Bool,
}
use honeybadger.Base.Order.{bytes_lt_irrefl}
use honeybadger.Errors.{Error, Result, ok, err, foreign, badger_key_not_found}
use honeybadger.Badger.{Stored, ReadLaws, visible, find_item}
use honeybadger.Memory.Stream.{Items}
use honeybadger.Memory.{lookup, insert, insert_all, read_time, visible_items, get_item, memory}
use honeybadger.Memory.Laws.{memory_txns, lookup-insert_all}

bytes_lt_trans : (a b c : Bytes) → bytes_lt a b ≡ true → bytes_lt b c ≡ true → bytes_lt a c ≡ true
unfolding bytes_lt
bytes_lt_trans [] [] c h k = cc
bytes_lt_trans [] (y ∷ ys) [] h k = cc
bytes_lt_trans [] (y ∷ ys) (z ∷ zs) h k = refl
bytes_lt_trans (x ∷ xs) [] c h k = cc
bytes_lt_trans (x ∷ xs) (y ∷ ys) [] h k = cc
bytes_lt_trans (x ∷ xs) (y ∷ ys) (z ∷ zs) h k = ground (arith, bytes_lt_trans xs ys zs)

bytes_lt_total : (a b : Bytes) → bytes_eq a b ≡ false → bytes_lt a b ≡ false → bytes_lt b a ≡ true
unfolding bytes_lt bytes_eq
bytes_lt_total [] [] h k = cc
bytes_lt_total [] (y ∷ ys) h k = cc
bytes_lt_total (x ∷ xs) [] h k = refl
bytes_lt_total (x ∷ xs) (y ∷ ys) h k = ground (arith, bytes_lt_total xs ys)

abbrev key : Bytes × Stored → Bytes
key item = item.0

abbrev shown : Bytes × Stored → Bool
shown item = (item.1.expires_at == 0) || ltb read_time item.1.expires_at

IsBelow-trans :
    (k j : Bytes) (items : Items)
    → bytes_lt k j ≡ true
    → IsBelow j (map key items)
    → IsBelow k (map key items)
IsBelow-trans k j [] lt below = tt
IsBelow-trans k j ((i, x) ∷ items) lt (first, below) =
    (bytes_lt_trans k j i lt first, IsBelow-trans k j items lt below)

IsBelow-insert :
    (j k : Bytes) (v : Stored) (items : Items)
    → bytes_lt j k ≡ true
    → IsBelow j (map key items)
    → IsBelow j (map key (insert k v items))
unfolding insert
IsBelow-insert j k v [] lt below = (lt, tt)
IsBelow-insert j k v ((i, x) ∷ items) lt (first, below) = elim (Bool-cases (bytes_eq i k)) [
  | inl same ↦ rw same (lt, below)
  | inr apart ↦ elim (Bool-cases (bytes_lt k i)) [
    | inl before ↦ rw (apart, before) (lt, (first, below))
    | inr after ↦ rw (apart, after) (first, IsBelow-insert j k v items lt below)
  ]
]

insert-IsAscending :
    (k : Bytes) (v : Stored) (items : Items)
    → IsAscending (map key items)
    → IsAscending (map key (insert k v items))
unfolding insert
insert-IsAscending k v [] asc = (tt, tt)
insert-IsAscending k v ((i, x) ∷ items) (below, asc) = elim (Bool-cases (bytes_eq i k)) [
  | inl same ↦ rw (same, ← (bytes_eq_iff i k).0 same) (below, asc)
  | inr apart ↦ elim (Bool-cases (bytes_lt k i)) [
    | inl before ↦ rw (apart, before) ((before, IsBelow-trans k i items before below), (below, asc))
    | inr after ↦
        rw (apart, after)
          (
            IsBelow-insert i k v items
                (ground (arith, bytes_lt_total k i, bytes_eq_iff i k, bytes_eq_iff k i)) below,
            insert-IsAscending k v items asc,
          )
  ]
]

insert_all-IsAscending : (items : Items) → IsAscending (map key (insert_all items []))
unfolding insert_all
insert_all-IsAscending [] = tt
insert_all-IsAscending ((k, v) ∷ items) =
    insert-IsAscending k v (insert_all items []) (insert_all-IsAscending items)

IsBelow-keep :
    (k : Bytes) (items : Items) → IsBelow k (map key items) → IsBelow k (map key (keep shown items))
IsBelow-keep k [] below = tt
IsBelow-keep k (item ∷ items) (first, below) = elim (Bool-cases (shown item)) [
  | inl seen ↦ rw seen (first, IsBelow-keep k items below)
  | inr hidden ↦ rw hidden (IsBelow-keep k items below)
]

keep-IsAscending :
    (items : Items) → IsAscending (map key items) → IsAscending (map key (keep shown items))
keep-IsAscending [] asc = tt
keep-IsAscending (item ∷ items) (below, asc) = elim (Bool-cases (shown item)) [
  | inl seen ↦ rw seen (IsBelow-keep (key item) items below, keep-IsAscending items asc)
  | inr hidden ↦ rw hidden (keep-IsAscending items asc)
]

lookup_below : (k : Bytes) (items : Items) → IsBelow k (map key items) → lookup k items ≡ none
unfolding lookup
lookup_below k [] below = refl
lookup_below k ((j, x) ∷ items) (first, below) =
    ground (arith, lookup_below k items below, bytes_eq_iff j k, bytes_lt_irrefl k)

lookup-keep_below :
    (j k : Bytes) (items : Items)
    → IsBelow j (map key items)
    → j ≡ k
    → lookup k (keep shown items) ≡ none
lookup-keep_below j k items below same =
    rw (← same) (lookup_below j (keep shown items) (IsBelow-keep j items below))

lookup-keep :
    (k : Bytes) (items : Items)
    → IsAscending (map key items)
    → lookup k (keep shown items) ≡ visible read_time (lookup k items)
unfolding lookup
lookup-keep k [] asc = refl
lookup-keep k ((j, x) ∷ items) (below, asc) =
    ground (arith, lookup-keep k items asc, bytes_eq_iff j k, lookup-keep_below j k items below)

lookup-sorted : (k : Bytes) (items : Items) → lookup k (insert_all items []) ≡ lookup k items
unfolding lookup
lookup-sorted k items = ground (arith, lookup-insert_all items [] k)

lookup-visible_items :
    (k : Bytes) (items : Items)
    → lookup k (visible_items items) ≡ visible read_time (lookup k items)
unfolding visible_items
lookup-visible_items k items =
    lookup-keep k (insert_all items []) (insert_all-IsAscending items)
    ∙ ap (visible read_time) (lookup-sorted k items)

find_item-lookup :
    (k : Bytes) (items : Items)
    → lookup k items ≡ elim (find_item key k items) [ none ↦ none | some r ↦ some r.1 ]
unfolding find_item lookup
find_item-lookup k [] = refl
find_item-lookup k ((j, x) ∷ items) = ground (arith, find_item-lookup k items)

pub get_present :
    (t : Items) (k : Bytes) (r : Bytes × Stored) (b : Bytes)
    → get_item t k ≡ ok r
    → ◌≡◌ {A = Result Bytes} (ok r.1.value) (ok b)
    → (v : Stored) × (visible read_time (lookup k t) ≡ some v) × (v.value ≡ b)
unfolding get_item
get_present t k r b h copied = elim (Option-cases (visible read_time (lookup k t))) [
  | inl gone ↦ absurd (ground arith)
  | inr (v, seen) ↦ (v, seen, ground arith)
]

pub get_absent :
    (t : Items) (k : Bytes)
    → visible read_time (lookup k t) ≡ none
    → get_item t k ≡ err (foreign badger_key_not_found)
unfolding get_item
get_absent t k h = ground arith

pub get_not_found :
    (t : Items) (k : Bytes) (e : Error)
    → get_item t k ≡ err e
    → visible read_time (lookup k t) ≡ none
unfolding get_item
get_not_found t k e h = elim (Option-cases (visible read_time (lookup k t))) [
  | inl gone ↦ gone
  | inr (v, seen) ↦ absurd (ground arith)
]

pub item_present :
    (t : Items) (k : Bytes) (r : Bytes × Stored) (b : Bytes)
    → find_item key k (visible_items t) ≡ some r
    → ◌≡◌ {A = Result Bytes} (ok r.1.value) (ok b)
    → (v : Stored) × (visible read_time (lookup k t) ≡ some v) × (v.value ≡ b)
item_present t k r b found copied = (
  r.1,
  ground (arith, lookup-visible_items k t, find_item-lookup k (visible_items t)),
  ground arith,
)

pub item_absent :
    (t : Items) (k : Bytes)
    → find_item key k (visible_items t) ≡ none
    → visible read_time (lookup k t) ≡ none
item_absent t k h = ground (arith, lookup-visible_items k t, find_item-lookup k (visible_items t))

pub visible_items-IsAscending : (t : Items) → IsAscending (map key (visible_items t))
unfolding visible_items
visible_items-IsAscending t = keep-IsAscending (insert_all t []) (insert_all-IsAscending t)

abbrev pub memory_reads : ReadLaws memory memory_txns
memory_reads = record {
  clock = λ t. read_time;
  view_runs = λ f d. refl;
  get_present = get_present;
  get_absent = get_absent;
  get_not_found = λ t k e h missing. get_not_found t k e h;
  all_items = visible_items;
  items-IsAscending = visible_items-IsAscending;
  seek_skips = λ t p. refl;
  item_present = item_present;
  item_absent = item_absent;
}
