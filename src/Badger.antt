-- ===== src/Badger.antt =====
-- Badger, the operating system's directories and what the code relies on: parameters of the model.
-- `Db` is an open database with its contents, `Txn` an open transaction, `World` all that lies
-- outside the process: the disk and the faults that it will show. `Tuning` stands for the Badger
-- options that the code passes on unread.
use honeybadger.Base.{
  true, map, ltb, ◌==◌, ◌||◌, bytes_lt, skip_while, IsAscending, ℕ, Bytes, List, [], ◌∷◌, ◌++◌,
  or_else, Option, none, some, ◌≡◌, bytes_eq, if◌then◌else◌,
}
use honeybadger.Errors.{Error, Result, ok, err, foreign, badger_key_not_found, errors_is_foreign}

-- `badger.Entry`: `expires_at` is 0 for an entry that never expires.
pub record Entry : Type 0 where
  pub key : Bytes
  pub value : Bytes
  pub expires_at : ℕ

-- What is stored under a key.
pub record Stored : Type 0 where
  pub value : Bytes
  pub expires_at : ℕ

-- The contents of a database.
abbrev pub Contents : Type 0
Contents = Bytes → Option Stored

-- `badger.Options`
pub record BadgerOptions (Tuning : Type 0) : Type 0 where
  pub dir : Bytes
  pub value_dir : Bytes
  pub tuning : Tuning

pub record Badger : Type 1 where
  pub World : Type 0
  pub Db : Type 0
  pub Txn : Type 0
  pub ItemRef : Type 0
  pub Tuning : Type 0
  -- (*DB).Update and (*DB).View; a callback that fails makes them fail
  pub update : (Txn → Result Txn) → Db → Result (Unit {0}) × Db
  pub view : {A : Type 0} → (Txn → Result A) → Db → Result A
  -- (*Txn).SetEntry, Delete, Get; (*Item).ValueCopy and KeyCopy
  pub set_entry : Txn → Entry → Result Txn
  pub delete : Txn → Bytes → Result Txn
  pub get : Txn → Bytes → Result ItemRef
  pub value_copy : ItemRef → Result Bytes
  pub key_copy : ItemRef → Bytes
  -- the items from Seek(prefix) on, in iteration order
  pub seek : Txn → Bytes → List ItemRef
  -- badger.Open, (*DB).Close, Load and Backup
  pub open_db : BadgerOptions Tuning → World → Result Db × World
  pub close : Db → World → Result (Unit {0}) × World
  pub load : Db → Bytes → World → Result (Unit {0}) × Db × World
  pub backup : {S : Type 0} → (Bytes → S → Result (Unit {0}) × S) → Db → S → Result (Unit {0}) × S
  -- os.RemoveAll, os.MkdirAll, os.Rename
  pub remove_all : Bytes → World → Result (Unit {0}) × World
  pub mkdir_all : Bytes → World → Result (Unit {0}) × World
  pub rename : Bytes → Bytes → World → Result (Unit {0}) × World

-- The pieces of a stream written one after another, up to the first failure.
abbrev pub write_all :
    {S : Type 0} → (Bytes → S → Result (Unit {0}) × S) → List Bytes → S → Result (Unit {0}) × S
write_all write [] s = (ok tt, s)
write_all write (chunk ∷ chunks) s =
    let (r, s') = write chunk s in elim r [ ok _ ↦ write_all write chunks s' | err e ↦ (err e, s') ]

abbrev pub concat : List Bytes → Bytes
concat [] = []
concat (chunk ∷ chunks) = chunk ++ concat chunks

-- What Badger documents of write transactions. `stored` is what a database holds, `seen` what a
-- transaction would read.
pub record TxnLaws (B : Badger) : Type 0 where
  pub stored : B.Db → Contents
  pub seen : B.Txn → Contents
  -- Update gives the callback a transaction over the database's contents; if the callback fails,
  -- nothing is written and its error comes back
  pub begin : B.Db → B.Txn
  pub seen-begin : (d : B.Db) (k : Bytes) → seen (begin d) k ≡ stored d k
  pub update_abort :
      (f : B.Txn → Result B.Txn) (d : B.Db) (e : Error)
      → f (begin d) ≡ err e
      → (B.update f d).0 ≡ err e
  -- a commit makes all of the callback's writes visible
  pub stored-update :
      (f : B.Txn → Result B.Txn) (d : B.Db) (t : B.Txn)
      → f (begin d) ≡ ok t
      → (B.update f d).0 ≡ ok tt
      → (k : Bytes) → stored (B.update f d).1 k ≡ seen t k
  -- a failed Update writes nothing
  pub stored-update_failed :
      (f : B.Txn → Result B.Txn) (d : B.Db) (e : Error)
      → (B.update f d).0 ≡ err e
      → (k : Bytes) → stored (B.update f d).1 k ≡ stored d k
  pub seen-set_entry :
      (t u : B.Txn) (e : Entry)
      → B.set_entry t e ≡ ok u
      → (k : Bytes)
      → seen u k ≡ (
          if bytes_eq e.key k
          then some (record { value = e.value; expires_at = e.expires_at })
          else seen t k)
  pub seen-delete :
      (t u : B.Txn) (key : Bytes)
      → B.delete t key ≡ ok u
      → (k : Bytes) → seen u k ≡ (if bytes_eq key k then none else seen t k)

-- What is visible at a Unix time: an expired item is as good as missing.
abbrev pub visible : ℕ → Option Stored → Option Stored
visible now none = none
visible now (some v) = if (v.expires_at == 0) || ltb now v.expires_at then some v else none

-- The first item with a key.
unfoldable pub find_item : {A : Type 0} → (A → Bytes) → Bytes → List A → Option A
find_item key k [] = none
find_item key k (x ∷ xs) =
    let rest = find_item key k xs in if bytes_eq (key x) k then some x else rest

-- What Badger documents of read transactions. `clock` is the Unix time that a transaction's
-- reads go by. A read may fail for other reasons, but not with ErrKeyNotFound.
pub record ReadLaws (B : Badger) (L : TxnLaws B) : Type 1 where
  pub clock : B.Txn → ℕ
  pub view_runs : {A : Type 0} (f : B.Txn → Result A) (d : B.Db) → B.view f d ≡ f (L.begin d)
  pub get_present :
      (t : B.Txn) (k : Bytes) (r : B.ItemRef) (b : Bytes)
      → B.get t k ≡ ok r
      → B.value_copy r ≡ ok b
      → (v : Stored) × (visible (clock t) (L.seen t k) ≡ some v) × (v.value ≡ b)
  pub get_absent :
      (t : B.Txn) (k : Bytes)
      → visible (clock t) (L.seen t k) ≡ none
      → B.get t k ≡ err (foreign badger_key_not_found)
  pub get_not_found :
      (t : B.Txn) (k : Bytes) (e : Error)
      → B.get t k ≡ err e
      → errors_is_foreign e badger_key_not_found ≡ true
      → visible (clock t) (L.seen t k) ≡ none
  -- `all_items` are the visible items in the order of their keys, each key once; Seek goes to
  -- the first that is not before the given key
  pub all_items : B.Txn → List B.ItemRef
  pub items-IsAscending : (t : B.Txn) → IsAscending (map B.key_copy (all_items t))
  pub seek_skips :
      (t : B.Txn) (p : Bytes)
      → B.seek t p ≡ skip_while (λ item. bytes_lt (B.key_copy item) p) (all_items t)
  -- the item of a key holds what is visible under it, and without an item nothing is
  pub item_present :
      (t : B.Txn) (k : Bytes) (r : B.ItemRef) (b : Bytes)
      → find_item B.key_copy k (all_items t) ≡ some r
      → B.value_copy r ≡ ok b
      → (v : Stored) × (visible (clock t) (L.seen t k) ≡ some v) × (v.value ≡ b)
  pub item_absent :
      (t : B.Txn) (k : Bytes)
      → find_item B.key_copy k (all_items t) ≡ none
      → visible (clock t) (L.seen t k) ≡ none

-- What Badger and the operating system document of directories. `on_disk` is what the database in
-- a directory holds, `home` the directory of an open database, `snapshot` what a backup stream
-- holds, and `Apart` says that neither of two paths is the other or lies in it.
pub record DiskLaws (B : Badger) (L : TxnLaws B) : Type 1 where
  pub on_disk : B.World → Bytes → Contents
  pub home : B.Db → Bytes
  pub snapshot : Bytes → Contents
  pub Apart : Bytes → Bytes → Type 0
  pub Apart-comm : (p q : Bytes) → Apart p q → Apart q p
  -- RemoveAll empties its directory, adds nothing anywhere, and leaves alone what lies apart
  pub remove_all_empties :
      (p : Bytes) (w : B.World) (k : Bytes)
      → (B.remove_all p w).0 ≡ ok tt
      → on_disk (B.remove_all p w).1 p k ≡ none
  pub remove_all_adds_nothing :
      (p q : Bytes) (w : B.World) (k : Bytes)
      → on_disk w q k ≡ none
      → on_disk (B.remove_all p w).1 q k ≡ none
  pub remove_all_frame :
      (p q : Bytes) (w : B.World) (k : Bytes)
      → Apart p q
      → on_disk (B.remove_all p w).1 q k ≡ on_disk w q k
  pub mkdir_all_frame :
      (p q : Bytes) (w : B.World) (k : Bytes) → on_disk (B.mkdir_all p w).1 q k ≡ on_disk w q k
  -- Rename moves the database, or does nothing
  pub rename_moves :
      (p q : Bytes) (w : B.World) (k : Bytes)
      → (B.rename p q w).0 ≡ ok tt
      → on_disk (B.rename p q w).1 q k ≡ on_disk w p k
  pub rename_fails :
      (p q r : Bytes) (w : B.World) (k : Bytes) (e : Error)
      → (B.rename p q w).0 ≡ err e
      → on_disk (B.rename p q w).1 r k ≡ on_disk w r k
  pub rename_frame :
      (p q r : Bytes) (w : B.World) (k : Bytes)
      → Apart p r
      → Apart q r
      → on_disk (B.rename p q w).1 r k ≡ on_disk w r k
  -- Open reads what is in the directory, and keeps it
  pub open_reads :
      (o : BadgerOptions B.Tuning) (w : B.World) (d : B.Db) (k : Bytes)
      → (B.open_db o w).0 ≡ ok d
      → L.stored d k ≡ on_disk w o.dir k
  pub home-open :
      (o : BadgerOptions B.Tuning) (w : B.World) (d : B.Db)
      → (B.open_db o w).0 ≡ ok d
      → home d ≡ o.dir
  pub open_frame :
      (o : BadgerOptions B.Tuning) (w : B.World) (q k : Bytes)
      → on_disk (B.open_db o w).1 q k ≡ on_disk w q k
  -- Load writes the stream's entries over what is there
  pub load_writes :
      (d : B.Db) (s : Bytes) (w : B.World) (k : Bytes)
      → (B.load d s w).0 ≡ ok tt
      → L.stored (B.load d s w).1 k ≡ or_else (snapshot s k) (L.stored d k)
  pub home-load : (d : B.Db) (s : Bytes) (w : B.World) → home (B.load d s w).1 ≡ home d
  pub load_frame :
      (d : B.Db) (s q : Bytes) (w : B.World) (k : Bytes)
      → Apart (home d) q
      → on_disk (B.load d s w).2 q k ≡ on_disk w q k
  -- Close leaves the contents in the directory
  pub close_flushes :
      (d : B.Db) (w : B.World) (k : Bytes)
      → (B.close d w).0 ≡ ok tt
      → on_disk (B.close d w).1 (home d) k ≡ L.stored d k
  pub close_frame :
      (d : B.Db) (q : Bytes) (w : B.World) (k : Bytes)
      → Apart (home d) q
      → on_disk (B.close d w).1 q k ≡ on_disk w q k
  -- Backup writes a stream, in pieces, that holds the contents
  pub backup_holds :
      {S : Type 0} (write : Bytes → S → Result (Unit {0}) × S) (d : B.Db) (s s' : S)
      → B.backup write d s ≡ (ok tt, s')
      → (chunks : List Bytes) × (write_all write chunks s ≡ (ok tt, s'))
        × ((k : Bytes) → snapshot (concat chunks) k ≡ L.stored d k)
