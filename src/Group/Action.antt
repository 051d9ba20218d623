-- ===== src/Group/Action.antt =====
-- What runs inside one transaction: it reads and changes the database, or throws. A throw rolls
-- the transaction back, so nothing of the database comes with it.
pub mod Returns
pub mod Keeps
use opensplit.Prelude.{ℕ, ◌+◌, Bool, true, false, Option, none, some}
use opensplit.Group.Refusal.{RefusalCode, Result, ok, err}
use opensplit.Group.Tables.{Db}

-- The CHECK and UNIQUE constraints of the tables. Breaking one is an exception, never a refusal.
pub data Constraint : Type 0 where
  primary_key members_profile name_not_blank appearance_checks amount_positive : Constraint
  moment_complete fx_complete fx_rate_positive events_position : Constraint

pub data Thrown : Type 0 where
  refused : RefusalCode → Thrown
  broken : Constraint → Thrown

pub data Outcome (A : Type 0) : Type 0 where
  done : A → Db → Outcome A
  thrown : Thrown → Outcome A

abbrev pub Action : Type 0 → Type 0
Action A = Db → Outcome A

module _ {A : Type 0} where
  unfoldable pub pure : A → Action A
  pure a s = done a s

  unfoldable pub throw : Thrown → Action A
  throw e s = thrown e

  -- `refuse()`
  unfoldable pub refuse : RefusalCode → Action A
  refuse code s = thrown (refused code)

  unfoldable pub gets : (Db → A) → Action A
  gets f s = done (f s) s

  unfoldable pub or_refuse : Option A → RefusalCode → Action A
  or_refuse none code s = thrown (refused code)
  or_refuse (some a) code s = done a s

unfoldable pub modify : (Db → Db) → Action (Unit {0})
modify f s = done tt (f s)

-- `if (test) refuse(code)`
unfoldable pub refuse_if : Bool → RefusalCode → Action (Unit {0})
refuse_if true code s = thrown (refused code)
refuse_if false code s = done tt s

-- A constraint holds or the statement throws.
unfoldable pub check : Bool → Constraint → Action (Unit {0})
check true c s = done tt s
check false c s = thrown (broken c)

-- `if (test) statement`
unfoldable pub run_if : Bool → Action (Unit {0}) → Action (Unit {0})
run_if true m s = m s
run_if false m s = done tt s

module _ {A B : Type 0} where
  abbrev pub continue : (A → Action B) → Outcome A → Outcome B
  continue f (done a s) = f a s
  continue f (thrown e) = thrown e

  infixl 10 ◌>>=◌ ◌>>◌
  -- Opening this opens the rest of the monad.
  unfoldable pub ◌>>=◌ : Action A → (A → Action B) → Action B
  unfolding pure throw refuse gets or_refuse modify refuse_if check run_if
  ◌>>=◌ m f s = continue f (m s)

  abbrev pub ◌>>◌ : Action A → Action B → Action B
  m >> n = m >>= λ _. n

-- A transaction's answer as `attempt` gives it: a refusal is a value; any other exception goes on
-- to the caller. Either leaves the database as it was.
pub data Reply (A : Type 0) : Type 0 where
  answered : Result A → Reply A
  crashed : Constraint → Reply A

abbrev pub settled : {A : Type 0} → Db → Outcome A → Reply A × Db
settled s (done a s') = (answered (ok a), s')
settled s (thrown (refused code)) = (answered (err code), s)
settled s (thrown (broken c)) = (crashed c, s)

unfoldable pub attempt : {A : Type 0} → Action A → Db → Reply A × Db
attempt body s = settled s (body s)
