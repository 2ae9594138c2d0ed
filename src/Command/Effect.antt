-- ===== src/Command/Effect.antt =====
-- What a command means, as a description that is independent of how fsm.go applies it: a blind
-- write, given by what it leaves under each key.
use honeybadger.Base.{
  Bytes, ◌≡◌, refl, ◌∙◌, Bool, false, ◌||◌, Option, none, some, List, [], ◌∷◌, ◌++◌, arith,
  bytes_eq, if◌then◌else◌, or_else, Option-cases,
}
use honeybadger.Badger.{Stored, Contents}
use honeybadger.Command.{CommandPair, Command}

abbrev pub contains : Bytes → List Bytes → Bool
contains k [] = false
contains k (x ∷ xs) = bytes_eq x k || contains k xs

-- What a set stores: the value with its absolute expiry.
abbrev pub stored_pair : CommandPair → Stored
stored_pair p = record { value = p.value; expires_at = p.expires_at_unix }

-- What the last pair with the key stores.
unfoldable pub last_pair : List CommandPair → Bytes → Option Stored
last_pair [] k = none
last_pair (p ∷ ps) k =
    or_else (last_pair ps k) (if bytes_eq p.key k then some (stored_pair p) else none)

-- What a command leaves under a key: `none` if it does not write the key, `some none` if it
-- deletes it, and otherwise what it stores there.
unfoldable pub written : Command → Bytes → Option (Option Stored)
written c k =
    if contains k c.deletes
    then some none
    else elim (last_pair c.pairs k) [ none ↦ none | some v ↦ some (some v) ]

abbrev pub overwrite : Option (Option Stored) → Option Stored → Option Stored
overwrite none old = old
overwrite (some new) old = new

-- The contents after a command.
unfoldable pub after : Command → Contents → Contents
after c m k = overwrite (written c k) (m k)

-- The contents after the commands of a log.
unfoldable pub after_log : List Command → Contents → Contents
after_log [] m = m
after_log (c ∷ cs) m = after_log cs (after c m)

-- What a log leaves under a key.
unfoldable pub written_log : List Command → Bytes → Option (Option Stored)
written_log [] k = none
written_log (c ∷ cs) k = or_else (written_log cs k) (written c k)

overwrite-or_else :
    (a b : Option (Option Stored)) (old : Option Stored)
    → overwrite a (overwrite b old) ≡ overwrite (or_else a b) old
overwrite-or_else none b old = refl
overwrite-or_else (some a) b old = refl

-- A log is a blind write, as each of its commands is.
pub after_log-written :
    (cs : List Command) (m : Contents) (k : Bytes)
    → after_log cs m k ≡ overwrite (written_log cs k) (m k)
unfolding after_log written_log after
after_log-written [] m k = refl
after_log-written (c ∷ cs) m k =
    after_log-written cs (after c m) k ∙ overwrite-or_else (written_log cs k) (written c k) (m k)

pub written_log-append :
    (cs ds : List Command) (k : Bytes)
    → written_log (cs ++ ds) k ≡ or_else (written_log ds k) (written_log cs k)
unfolding written_log
written_log-append [] ds k = ground (arith, Option-cases (written_log ds k))
written_log-append (c ∷ cs) ds k = ground (arith, written_log-append cs ds k)

-- Contents that already hold a prefix of a log end up as contents that do not, once the whole
-- log is applied.
pub after_log-overlap :
    (cs ds : List Command) (m m' : Contents)
    → ((k : Bytes) → m' k ≡ after_log cs m k)
    → (k : Bytes) → after_log (cs ++ ds) m' k ≡ after_log (cs ++ ds) m k
after_log-overlap cs ds m m' h k = ground (
  arith,
  h k,
  after_log-written (cs ++ ds) m' k,
  after_log-written (cs ++ ds) m k,
  after_log-written cs m k,
  written_log-append cs ds k,
)

-- Equal contents stay equal under a log.
pub after_log-cong :
    (cs : List Command) (m m' : Contents) (k : Bytes)
    → m' k ≡ m k
    → after_log cs m' k ≡ after_log cs m k
after_log-cong cs m m' k h = ground (arith, after_log-written cs m' k, after_log-written cs m k)

pub after_log-append :
    (cs ds : List Command) (m : Contents) → after_log (cs ++ ds) m ≡ after_log ds (after_log cs m)
unfolding after_log
after_log-append [] ds m = refl
after_log-append (c ∷ cs) ds m = after_log-append cs ds (after c m)

-- Contents that need only `ahead` to hold the effect of a log may be given more of its end.
pub after_log-again :
    (earlier again ahead : List Command) (m base : Contents) (k : Bytes)
    → after_log ahead m k ≡ after_log (earlier ++ (again ++ ahead)) base k
    → after_log (again ++ ahead) m k ≡ after_log (earlier ++ (again ++ ahead)) base k
after_log-again earlier again ahead m base k h = ground (
  arith,
  h,
  after_log-written ahead m k,
  after_log-written (again ++ ahead) m k,
  after_log-written (earlier ++ (again ++ ahead)) base k,
  written_log-append again ahead k,
  written_log-append earlier (again ++ ahead) k,
)
