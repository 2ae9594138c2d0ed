-- ===== src/Memory/Laws.antt =====
-- The implementation in memory meets the laws that the model assumes.
use honeybadger.Base.{
  Bytes, bytes_eq, bytes_eq_iff, bytes_eq_refl, ◌≡◌, refl, ◌∙◌, ap, false, none, some, List, [],
  ◌∷◌, arith, or_else, if◌then◌else◌,
}
use mathlib.Core.List.{append-nil}
use honeybadger.Errors.{Error, Result, ok, err}
use honeybadger.Badger.{
  BadgerOptions, Entry, Stored, Contents, TxnLaws, DiskLaws, write_all, concat,
}
use honeybadger.Memory.Stream.{Items, encode_items, decode_items, decode-encode_items}
use honeybadger.Memory.{
  lookup, insert, erase, insert_all, MemoryDb, World, items_at, next_fault, open_dir, put_dir,
  load_stream, update_items, set_item, memory,
}

pub lookup-insert :
    (k j : Bytes) (v : Stored) (items : Items)
    → lookup j (insert k v items) ≡ (if bytes_eq k j then some v else lookup j items)
unfolding lookup insert
lookup-insert k j v [] = refl
lookup-insert k j v ((i, x) ∷ items) =
    ground (arith, lookup-insert k j v items, bytes_eq_iff i k, bytes_eq_iff i j, bytes_eq_iff k j)

pub lookup-erase :
    (k j : Bytes) (items : Items)
    → lookup j (erase k items) ≡ (if bytes_eq k j then none else lookup j items)
unfolding lookup erase
lookup-erase k j [] = ground arith
lookup-erase k j ((i, x) ∷ items) =
    ground (arith, lookup-erase k j items, bytes_eq_iff i k, bytes_eq_iff i j, bytes_eq_iff k j)

pub lookup-insert_all :
    (more items : Items) (k : Bytes)
    → lookup k (insert_all more items) ≡ or_else (lookup k more) (lookup k items)
unfolding insert_all lookup
lookup-insert_all [] items k = refl
lookup-insert_all ((j, x) ∷ more) items k =
    ground (arith, lookup-insert j k x (insert_all more items), lookup-insert_all more items k)

abbrev pub contents_of : Items → Contents
contents_of items k = lookup k items

pub update_items_abort :
    (f : Items → Result Items) (d : MemoryDb) (e : Error)
    → f d.items ≡ err e
    → (update_items f d).0 ≡ err e
unfolding update_items
update_items_abort f d e h = ground arith

pub update_items_commit :
    (f : Items → Result Items) (d : MemoryDb) (t : Items)
    → f d.items ≡ ok t
    → (update_items f d).0 ≡ ok tt
    → (k : Bytes) → lookup k (update_items f d).1.items ≡ lookup k t
unfolding update_items
update_items_commit f d t h done k = ground arith

pub update_items_failed :
    (f : Items → Result Items) (d : MemoryDb) (e : Error)
    → (update_items f d).0 ≡ err e
    → (k : Bytes) → lookup k (update_items f d).1.items ≡ lookup k d.items
unfolding update_items
update_items_failed f d e h k = ground arith

pub lookup-set_item :
    (t u : Items) (e : Entry)
    → set_item t e ≡ ok u
    → (k : Bytes)
    → lookup k u ≡ (
        if bytes_eq e.key k
        then some (record { value = e.value; expires_at = e.expires_at })
        else lookup k t)
unfolding set_item
lookup-set_item t u e h k =
    ground (arith, lookup-insert e.key k (record { value = e.value; expires_at = e.expires_at }) t)

pub lookup-deleted :
    (t u : Items) (key : Bytes)
    → ◌≡◌ {A = Result Items} (ok (erase key t)) (ok u)
    → (k : Bytes) → lookup k u ≡ (if bytes_eq key k then none else lookup k t)
lookup-deleted t u key h k = ground (arith, lookup-erase key k t)

abbrev pub memory_txns : TxnLaws memory
memory_txns = record {
  stored = λ d k. lookup k d.items;
  seen = λ items k. lookup k items;
  begin = λ d. d.items;
  seen-begin = λ d k. refl;
  update_abort = update_items_abort;
  stored-update = update_items_commit;
  stored-update_failed = update_items_failed;
  seen-set_entry = lookup-set_item;
  seen-delete = lookup-deleted;
}

abbrev pub on_disk : World → Bytes → Contents
on_disk w p k = lookup k (items_at p w.disk)

on_disk-put_dir :
    (p q k : Bytes) (items : Items) (w : World)
    → on_disk (put_dir p items w) q k ≡ (if bytes_eq p q then lookup k items else on_disk w q k)
unfolding put_dir items_at
on_disk-put_dir p q k items w = ground arith

on_disk-next_fault : (w : World) (q k : Bytes) → on_disk (next_fault w).1 q k ≡ on_disk w q k
unfolding next_fault
on_disk-next_fault w q k = ground arith

pub remove_adds_nothing :
    (p q : Bytes) (w : World) (k : Bytes)
    → on_disk w q k ≡ none
    → on_disk (put_dir p [] w) q k ≡ none
unfolding lookup
remove_adds_nothing p q w k h = ground (arith, on_disk-put_dir p q k [] w)

pub put_frame :
    (p q k : Bytes) (items : Items) (w : World)
    → bytes_eq p q ≡ false
    → on_disk (put_dir p items w) q k ≡ on_disk w q k
put_frame p q k items w apart = ground (arith, on_disk-put_dir p q k items w)

pub put_here :
    (p k : Bytes) (items : Items) (w : World) → on_disk (put_dir p items w) p k ≡ lookup k items
put_here p k items w = ground (arith, on_disk-put_dir p p k items w, bytes_eq_refl p)

pub open_dir_lem :
    (o : BadgerOptions (Unit {0})) (w : World) (d : MemoryDb)
    → (open_dir o w).0 ≡ ok d
    → (d.home ≡ o.dir) × (d.items ≡ items_at o.dir w.disk)
unfolding open_dir next_fault
open_dir_lem o w d h = ground arith

pub open_dir_frame :
    (o : BadgerOptions (Unit {0})) (w : World) (q k : Bytes)
    → on_disk (open_dir o w).1 q k ≡ on_disk w q k
unfolding open_dir
open_dir_frame o w q k = ground (arith, on_disk-next_fault w q k)

pub load_stream_lem :
    (d : MemoryDb) (s : Bytes) (w : World) (k : Bytes)
    → (load_stream d s w).0 ≡ ok tt
    → lookup k (load_stream d s w).1.items ≡ or_else (lookup k (decode_items s)) (lookup k d.items)
unfolding load_stream
load_stream_lem d s w k h = ground (arith, lookup-insert_all (decode_items s) d.items k)

pub load_stream_frame :
    (d : MemoryDb) (s q : Bytes) (w : World) (k : Bytes)
    → ((load_stream d s w).1.home ≡ d.home) × (on_disk (load_stream d s w).2 q k ≡ on_disk w q k)
unfolding load_stream
load_stream_frame d s q w k = ground (arith, on_disk-next_fault w q k)

pub backup_chunks :
    {S : Type 0} (write : Bytes → S → Result (Unit {0}) × S) (d : MemoryDb) (s s' : S)
    → write (encode_items d.items) s ≡ (ok tt, s')
    → (chunks : List Bytes) × (write_all write chunks s ≡ (ok tt, s'))
      × ((k : Bytes) → lookup k (decode_items (concat chunks)) ≡ lookup k d.items)
backup_chunks write d s s' h =
    (encode_items d.items ∷ [], ground arith, λ k. rw (append-nil, decode-encode_items))

pub put_empty : (p k : Bytes) (w : World) → on_disk (put_dir p [] w) p k ≡ none
unfolding lookup
put_empty p k w = put_here p k [] w

pub apart_comm : (p q : Bytes) → bytes_eq p q ≡ false → bytes_eq q p ≡ false
apart_comm p q apart = ground (arith, bytes_eq_iff p q, bytes_eq_iff q p)

pub not_failed : {P : Type 0} (e : Error) → ◌≡◌ {A = Result (Unit {0})} (ok tt) (err e) → P
not_failed e h = absurd (ground arith)

abbrev pub memory_disk : DiskLaws memory memory_txns
memory_disk = record {
  on_disk = on_disk;
  home = λ d. d.home;
  snapshot = λ s k. lookup k (decode_items s);
  Apart = λ p q. bytes_eq p q ≡ false;
  Apart-comm = apart_comm;
  remove_all_empties = λ p w k _. put_empty p k w;
  remove_all_adds_nothing = remove_adds_nothing;
  remove_all_frame = λ p q w k apart. put_frame p q k [] w apart;
  mkdir_all_frame = λ p q w k. refl;
  rename_moves = λ p q w k _. put_here q k (items_at p w.disk) (put_dir p [] w);
  rename_fails = λ p q r w k e failed. not_failed e failed;
  rename_frame = λ p q r w k pr qr.
      put_frame q r k (items_at p w.disk) (put_dir p [] w) qr ∙ put_frame p r k [] w pr;
  open_reads = λ o w d k h. ap (lookup k) (open_dir_lem o w d h).1;
  home-open = λ o w d h. (open_dir_lem o w d h).0;
  open_frame = open_dir_frame;
  load_writes = load_stream_lem;
  home-load = λ d s w. (load_stream_frame d s [] w []).0;
  load_frame = λ d s q w k _. (load_stream_frame d s q w k).1;
  close_flushes = λ d w k _. put_here d.home k d.items w;
  close_frame = λ d q w k apart. put_frame d.home q k d.items w apart;
  backup_holds = backup_chunks;
}
