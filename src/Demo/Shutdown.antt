-- ===== src/Demo/Shutdown.antt =====
-- examples/three-node/main.go: what a whole run of the demo leaves open.
use honeybadger.Base.{ℕ, ◌+◌, ◌<◌, ◌≡◌, List, [], ◌∷◌, length, Option, none, some, arith}
use mathlib.Core.List.{reverse, reverse_aux}
use honeybadger.Badger.{Badger}
use honeybadger.Raft.{Raft}
use honeybadger.Command.{Gob}
use honeybadger.Db.{Db}
use honeybadger.Handles.{HandleLaws}
use honeybadger.Open.{Host}
use honeybadger.Open.Laws.{HostLaws}
use honeybadger.ThreeNode.{Net, Fleet, Ending, returned, panicked}
use honeybadger.ThreeNode.Boot.{held_by, AllOpen, AllClosed}
use honeybadger.Demo.Calls.{CallLaws}

length-reverse_aux :
    {A : Type 0} (xs ys : List A) → length (reverse_aux xs ys) ≡ length xs + length ys
length-reverse_aux [] ys = omega arith
length-reverse_aux (x ∷ xs) ys = omega (arith, length-reverse_aux xs (x ∷ ys))

pub length-reverse : {A : Type 0} (xs : List A) → length (reverse xs) ≡ length xs
length-reverse xs = omega (arith, length-reverse_aux xs [])

module _ (G : Gob) {B : Badger} {R : Raft} {H : Host B R} (D : HandleLaws B) {P : HostLaws H}
    (C : CallLaws P) where
  module _ (others : ℕ) {N : Net} where
    -- What a run leaves: no node is open, each that was has given up its parts, and no database is
    -- open but those of others; or the boot panicked, with fewer than three nodes open.
    abbrev pub RunLeaves : Option (Ending × Fleet B R N) → Type 0
    RunLeaves none = Unit
    RunLeaves (some (returned result, f)) =
        (f.nodes ≡ []) × AllClosed D P f.closed_rafts × (D.open_dbs f.world ≡ others)
    RunLeaves (some (panicked, f)) =
        (length f.nodes < 3)
        × AllOpen D P f.nodes
        × (D.open_dbs f.world ≡ others + held_by D P f.nodes)
