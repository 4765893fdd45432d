-- ===== src/Server/Tx.antt =====
-- A transaction (`db.tx` of server/src/db.ts and `txGuarded` of server/src/refusal.ts): a function of
-- the tables that ends with a value, with a refusal, or with an exception, and in each case with what
-- it had written. What the schema's
-- triggers and deferred constraints say of the tables that it would commit is an argument.
pub mod Rules
use obsidian_syncserver.Prelude.{Bool, Option, none, some, if◌then◌else◌}
use obsidian_syncserver.Server.Store.{Tables}
use obsidian_syncserver.Server.Refusal.{Refusal, DbError, refusal_from_database}

-- An error of the database, or an error of the program.
pub data Thrown : Type 0 where
  db_error : DbError → Thrown
  program_error : Thrown

pub data Outcome (A : Type 0) : Type 0 where
  done : A → Tables → Outcome A
  refused : Refusal → Tables → Outcome A
  threw : Thrown → Tables → Outcome A

abbrev pub Tx : Type 0 → Type 0
Tx A = Tables → Outcome A

module _ {A : Type 0} where
  abbrev pub pure : A → Tx A
  pure a t = done a t

  -- `return fail(...)`
  abbrev pub refuse : Refusal → Tx A
  refuse r t = refused r t

  abbrev pub throw : Thrown → Tx A
  throw e t = threw e t

  abbrev pub gets : (Tables → A) → Tx A
  gets f t = done (f t) t

  -- The row that a query must have.
  abbrev pub or_refuse : Option A → Refusal → Tx A
  or_refuse none r = refuse r
  or_refuse (some a) r = pure a

  abbrev pub or_throw : Option A → Thrown → Tx A
  or_throw none e = throw e
  or_throw (some a) e = pure a

  abbrev pub continue : {B : Type 0} → Outcome A → (A → Tx B) → Outcome B
  continue (done a t) f = f a t
  continue (refused r t) f = refused r t
  continue (threw e t) f = threw e t

infixl 5 ◌>>=◌ ◌>>◌
abbrev pub ◌>>=◌ : {A B : Type 0} → Tx A → (A → Tx B) → Tx B
◌>>=◌ m f t = continue (m t) f

abbrev pub ◌>>◌ : {B : Type 0} → Tx (Unit {0}) → Tx B → Tx B
m >> k = m >>= λ _. k

abbrev pub refuse_if : Bool → Refusal → Tx (Unit {0})
refuse_if b r t = if b then refused r t else done tt t

abbrev pub modify : (Tables → Tables) → Tx (Unit {0})
modify f t = done tt (f t)

abbrev pub when : Bool → Tx (Unit {0}) → Tx (Unit {0})
when b m t = let after = m t in if b then after else done tt t

-- A statement that answers `none` where the database refuses it.
abbrev pub ended : DbError → Tables → Option Tables → Outcome (Unit {0})
ended e before none = threw (db_error e) before
ended e before (some t) = done tt t

abbrev pub attempt : DbError → (Tables → Option Tables) → Tx (Unit {0})
attempt e f t = ended e t (f t)

-- What the caller of a guarded transaction gets.
pub data Answer (A : Type 0) : Type 0 where
  value : A → Answer A
  refusal : Refusal → Answer A
  failure : Thrown → Answer A

-- ROLLBACK: what the transaction had written is gone.
abbrev pub rollback : Tables → Tables → Tables
rollback committed written = committed

module _ {A : Type 0} where
  abbrev pub answer_of_error : DbError → Option Refusal → Answer A
  answer_of_error e none = failure (db_error e)
  answer_of_error e (some r) = refusal r

  abbrev pub answer_of_thrown : Thrown → Answer A
  answer_of_thrown (db_error e) = answer_of_error e (refusal_from_database e)
  answer_of_thrown program_error = failure program_error

  -- COMMIT, with what the deferred checks of the schema say.
  abbrev pub commit : A → Tables → Tables → Option DbError → Answer A × Tables
  commit a before after none = (value a, after)
  commit a before after (some e) = (answer_of_thrown (db_error e), rollback before after)

  abbrev pub close_tx : (Tables → Option DbError) → Tables → Outcome A → Answer A × Tables
  close_tx schema before (done a after) = commit a before after (schema after)
  close_tx schema before (refused r written) = (refusal r, rollback before written)
  close_tx schema before (threw e written) = (answer_of_thrown e, rollback before written)

  unfoldable pub tx_guarded : (Tables → Option DbError) → Tx A → Tables → Answer A × Tables
  tx_guarded schema fn t = close_tx schema t (fn t)
