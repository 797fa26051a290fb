-- ===== src/Store/Database.antt =====
-- The transactions of badger, which is not of this repository: operations on a state `Db`, with the
-- laws that its documentation gives. A read in a transaction sees the writes of the transaction.
use system_agent.Prelude.{◌≡◌, List, Option, none, some, if◌then◌else◌}
use system_agent.Prelude.Text.{Str, str_eq}
use system_agent.Prelude.Result.{Result, ok, err, ◌>>=◌}
use system_agent.Store.Types.{Failure, key_not_found}

-- `get` and `delete` are `Txn.Get` with the item's value and `Txn.Delete`; `items` is the iterator
-- from a prefix while it is valid for the prefix; `commit` ends `DB.Update` behind the function.
pub record Badger (Db : Type 0) : Type 0 where
  pub get : Str → Db → Result Failure Str
  pub set : Str → Str → Db → Result Failure Db
  pub delete : Str → Db → Result Failure Db
  pub items : Str → Db → List (Str × Str)
  pub commit : Db → Result Failure Db

pub record IsBadger {Db : Type 0} (badger : Badger Db) : Type 0 where
  pub get-set :
      (k v j : Str) (db db' : Db)
      → badger.set k v db ≡ ok db'
      → badger.get j db' ≡ (if str_eq k j then ok v else badger.get j db)
  pub get-delete :
      (k j : Str) (db db' : Db)
      → badger.delete k db ≡ ok db'
      → badger.get j db' ≡ (if str_eq k j then err key_not_found else badger.get j db)
  pub get-commit :
      (j : Str) (db db' : Db) → badger.commit db ≡ ok db' → badger.get j db' ≡ badger.get j db

-- `DB.Update`: where the function or the commit fails, nothing is written.
unfoldable pub update :
    {Db A : Type 0} → Badger Db → (Db → Result Failure (A × Db)) → Db → Result Failure (A × Db)
update badger f db = do (a, db') ← f db; db'' ← badger.commit db'; ok (a, db'')

-- A value, or nothing where `errors.Is(err, badger.ErrKeyNotFound)`.
abbrev pub or_missing : Result Failure Str → Result Failure (Option Str)
or_missing (ok v) = ok (some v)
or_missing (err key_not_found) = ok none
or_missing (err e) = err e
