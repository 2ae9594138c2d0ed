-- ===== src/Memory.antt =====
-- An implementation of the parameters in memory: Badger, the disk and gob. It shows that what the
-- model assumes of them can hold, and it runs in the tests. `faults` says for each coming Open and
-- Load whether it fails.
pub mod Stream
pub mod Codec
pub mod Laws
pub mod Reads
pub mod Consensus
pub mod Hosts
pub mod Sinks
use honeybadger.Base.{
  suc, ◌-◌, keep, skip_while, ℕ, Bytes, bytes_eq, bytes_lt, is_empty, has_prefix, leb, ltb, ◌==◌,
  ◌&&◌, ◌||◌, not, Bool, true, false, Option, none, some, List, [], ◌∷◌, ◌++◌, if◌then◌else◌,
}
use honeybadger.Errors.{Result, ok, err, done, foreign, other, badger_key_not_found}
use honeybadger.Badger.{Badger, BadgerOptions, Entry, Stored, visible}
use honeybadger.Memory.Stream.{Items, encode_items, decode_items}

-- The first item with the key.
unfoldable pub lookup : Bytes → Items → Option Stored
lookup k [] = none
lookup k ((j, v) ∷ items) = if bytes_eq j k then some v else lookup k items

-- Items are kept in the order of their keys.
unfoldable pub insert : Bytes → Stored → Items → Items
insert k v [] = (k, v) ∷ []
insert k v ((j, x) ∷ items) =
    let rest = insert k v items in
    if bytes_eq j k
    then (k, v) ∷ items
    else if bytes_lt k j
    then (k, v) ∷ (j, x) ∷ items
    else (j, x) ∷ rest

unfoldable pub erase : Bytes → Items → Items
erase k [] = []
erase k ((j, x) ∷ items) = let rest = erase k items in if bytes_eq j k then rest else (j, x) ∷ rest

-- The items of a stream over those of a database.
unfoldable pub insert_all : Items → Items → Items
insert_all [] items = items
insert_all ((k, v) ∷ more) items = insert k v (insert_all more items)

-- The Unix time that reads go by.
abbrev pub read_time : ℕ
read_time = 1_800_000_000

-- The visible items in the order of their keys, each key once.
unfoldable pub visible_items : Items → Items
visible_items items =
    keep (λ item. (item.1.expires_at == 0) || ltb read_time item.1.expires_at) (insert_all items [])

pub record MemoryDb : Type 0 where
  pub home : Bytes
  pub items : Items

pub record World : Type 0 where
  pub disk : List (Bytes × Items)
  pub faults : List Bool
  pub handles : ℕ

abbrev Act : Type 0 → Type 0
Act A = World → A × World

unfoldable pub items_at : Bytes → List (Bytes × Items) → Items
items_at p [] = []
items_at p ((q, items) ∷ disk) = if bytes_eq q p then items else items_at p disk

-- Whether the next call fails.
unfoldable pub next_fault : World → Bool × World
next_fault w = elim w.faults [
  | [] ↦ (false, w)
  | fault ∷ faults ↦ (fault, record w { faults = faults })
]

abbrev io_error : Result (Unit {0})
io_error = err (foreign (other 5))

unfoldable pub open_dir : BadgerOptions (Unit {0}) → World → Result MemoryDb × World
open_dir o w =
    let (fault, w') = next_fault w in
    if fault then (err (foreign (other 5)), w') else (
      ok (record { home = o.dir; items = items_at o.dir w.disk }),
      record w' { handles = suc w'.handles },
    )

unfoldable pub put_dir : Bytes → Items → World → World
put_dir p items w = record w { disk = (p, items) ∷ w.disk }

unfoldable pub load_stream : MemoryDb → Bytes → World → Result (Unit {0}) × MemoryDb × World
load_stream d s w =
    let (fault, w') = next_fault w in
    if fault
    then (io_error, d, w')
    else (done, record d { items = insert_all (decode_items s) d.items }, w')

unfoldable pub update_items : (Items → Result Items) → MemoryDb → Result (Unit {0}) × MemoryDb
update_items f d = elim (f d.items) [
  | ok items ↦ (done, record d { items = items })
  | err e ↦ (err e, d)
]

unfoldable pub set_item : Items → Entry → Result Items
set_item items e =
    if is_empty e.key
    then err (foreign (other 1))
    else ok (insert e.key (record { value = e.value; expires_at = e.expires_at }) items)

unfoldable pub get_item : Items → Bytes → Result (Bytes × Stored)
get_item items k = elim (visible read_time (lookup k items)) [
  | none ↦ err (foreign badger_key_not_found)
  | some v ↦ ok (k, v)
]

abbrev pub memory : Badger
memory = record {
  World = World;
  Db = MemoryDb;
  Txn = Items;
  ItemRef = Bytes × Stored;
  Tuning = Unit {0};
  update = update_items;
  view = λ f d. f d.items;
  set_entry = set_item;
  delete = λ items k. ok (erase k items);
  get = get_item;
  value_copy = λ item. ok item.1.value;
  key_copy = λ item. item.0;
  seek = λ items p. skip_while (λ item. bytes_lt item.0 p) (visible_items items);
  open_db = open_dir;
  close =
      λ d w. (done, let w' = put_dir d.home d.items w in record w' { handles = w'.handles - 1 });
  load = load_stream;
  backup = λ write d s. write (encode_items d.items) s;
  remove_all = λ p w. (done, put_dir p [] w);
  mkdir_all = λ p w. (done, w);
  rename = λ p q w. (done, put_dir q (items_at p w.disk) (put_dir p [] w));
}
