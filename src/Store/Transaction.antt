-- ===== src/Store/Transaction.antt =====
-- The sessions by which every component works on the database: an action on the working copy
-- that returns or raises. `transaction` is a `with session` block that ends in a commit, and
-- gives the old database back when the block raises.
use coderus.Base.{ℕ, Bool, true, false, String, Option}
use coderus.Store.Schema.{Db}

-- The exceptions that the modelled code raises or catches. User-visible texts are left out;
-- `declared` is an exception whose class names an error code of its own, `remote` carries the
-- status of an HTTP answer, and `other` is any class that no code here tells apart.
pub data Failure : Type 0 where
  not_found forbidden conflict : Failure
  claim_lost task_cancelled : Failure
  worker_cancelled developer_report_error retryable_agent_error exception_group : Failure
  value_error runtime_error integrity_error : Failure
  forge_not_configured invalid_forge_input git_push_error : Failure
  remote : Option ℕ → Failure
  resource_limit timeout connection other : Failure
  declared : String → Failure

pub data Result (A : Type 0) : Type 0 where
  return : A → Result A
  raise : Failure → Result A

abbrev pub Action : Type 0 → Type 0
Action A = Db → Result A × Db

-- The operations are shut, so that a composed action keeps its shape in a proof; whoever
-- computes with actions names `session` on its `unfolding` line.
unfoldable pub get : Action Db
get db = (return db, db)

module _ {A : Type 0} where
  unfoldable pub pure : A → Action A
  pure a db = (return a, db)

  unfoldable pub throw : Failure → Action A
  throw e db = (raise e, db)

  -- The changes of a block that raises are rolled back.
  abbrev pub settle : Db → Result A → Db → Result A × Db
  settle before (return a) after = (return a, after)
  settle before (raise e) after = (raise e, before)

  unfoldable pub transaction : Action A → Action A
  transaction block db = let (result, after) = block db in settle db result after

-- A block that commits only where it returns `true`; the caller learns which.
abbrev pub keep_if : Db → Result Bool → Db → Result Bool × Db
keep_if before (return true) after = (return true, after)
keep_if before (return false) after = (return false, before)
keep_if before (raise e) after = (raise e, before)

unfoldable pub commit_if : Action Bool → Action Bool
commit_if block db = let (result, after) = block db in keep_if db result after

module _ {A B : Type 0} where
  abbrev pub and_then : Result A → (A → Action B) → Action B
  and_then (return a) f db = f a db
  and_then (raise e) f db = (raise e, db)

  infixl 5 ◌>>=◌ ◌>>◌
  unfoldable pub ◌>>=◌ : Action A → (A → Action B) → Action B
  m >>= f = λ db. let (result, after) = m db in and_then result f after

  unfoldable pub ◌>>◌ : Action A → Action B → Action B
  m >> n = m >>= λ _. n

unfoldable pub session : Unit {0}
unfolding get pure throw transaction commit_if ◌>>=◌ ◌>>◌
session = tt
