-- ===== src/Api/Closed.antt =====
-- The calls of the API after `Close`.
use honeybadger.Base.{◌≡◌, ◌⊎◌, some, Option}
use honeybadger.Errors.{Error, Result, err, err_closed}
use honeybadger.Badger.{Badger}
use honeybadger.Raft.{Raft}
use honeybadger.Db.{Db}
use honeybadger.Api.{IsInvalid}

-- The call returned an error: ErrClosed, or one that wraps ErrInvalidArgument.
abbrev pub IsRefusal : Option Error → Type 0
IsRefusal answer = (e : Error) × (answer ≡ some e) × ((e ≡ err_closed) ⊎ IsInvalid e)

module _ {B : Badger} {R : Raft} (db : Db B R) where
  -- A call that refused and left the node as it was.
  abbrev Refuses : {A : Type 0} → Result A × Db B R → Type 0
  Refuses (result, db') =
      (e : Error) × (result ≡ err e) × (db' ≡ db) × ((e ≡ err_closed) ⊎ IsInvalid e)
