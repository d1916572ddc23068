-- ===== src/TaskState/Returns.antt =====
-- Actions that return and never raise, of which the conditional update is one.
use coderus.Base.{
  ℕ, ◌≡◌, refl, Bool, true, false, String, Option, none, some, List, ◌∷◌, if◌then◌else◌, ◌==◌,
}
use coderus.Base.Table.{find_where, count_where}
use coderus.Store.{
  Db, Action, Task, TaskStatus, Result, return, get, pure, commit_if, keep_if, ◌>>=◌, ◌>>◌,
}
use coderus.TaskState.{TaskUpdates, cas_current, cas_selects, cas_matches, cas_task_status}

-- An action that never raises.
module _ {A : Type 0} where
  abbrev pub Returns : Action A → Type 0
  Returns m = (db : Db) → (a : A) × ((m db).0 ≡ return a)

  pub pure-Returns : (a : A) → Returns (pure a)
  unfolding pure
  pure-Returns a db = (a, refl)

  pub if-Returns :
      (b : Bool) (m n : Action A) → Returns m → Returns n → Returns (if b then m else n)
  if-Returns true m n h k = h
  if-Returns false m n h k = k

module _ {A B : Type 0} where
  pub bind-Returns :
      (m : Action A) (f : A → Action B) → Returns m → ((a : A) → Returns (f a)) → Returns (m >>= f)
  unfolding ◌>>=◌
  bind-Returns m f h k db = let (a, e) = h db in let (b, q) = k a (m db).1 in (b, rw e q)

  pub then-Returns : (m : Action A) (n : Action B) → Returns m → Returns n → Returns (m >> n)
  unfolding ◌>>◌
  then-Returns m n h k = bind-Returns m (λ _. n) h (λ _. k)

pub get-Returns : Returns get
unfolding get
get-Returns db = (db, refl)

keep_if-return : (before after : Db) (b : Bool) → (keep_if before (return b) after).0 ≡ return b
keep_if-return before after true = refl
keep_if-return before after false = refl

pub commit_if-Returns : (m : Action Bool) → Returns m → Returns (commit_if m)
unfolding commit_if
commit_if-Returns m h db = let (b, e) = h db in (b, rw e (keep_if-return db (m db).1 b))

cas_current-Returns :
    (task_id : ℕ) (new_status : TaskStatus) (updates : TaskUpdates) (token : Option String)
    (actor : String) (o : Option Task)
    → Returns (cas_current task_id new_status updates token actor o)
unfolding cas_current
cas_current-Returns task_id new_status updates token actor none db = (false, refl)
cas_current-Returns task_id new_status updates token actor (some current) db =
    either _ _ (count_where (cas_matches task_id current.status token) db.tasks == 1)
  where
    either :
        (x y : Db) (b : Bool)
        → (c : Bool) × ((if◌then◌else◌ {A = Result Bool × Db} b
              (return true, x)
              (return false, y)).0
            ≡ return c)
    either x y true = (true, refl)
    either x y false = (false, refl)

pub cas-Returns :
    (task_id : ℕ) (s : TaskStatus) (more : List TaskStatus) (new_status : TaskStatus)
    (updates : TaskUpdates) (token : Option String) (actor : String)
    → Returns (cas_task_status task_id (s ∷ more) new_status updates token actor)
unfolding cas_task_status
cas-Returns task_id s more new_status updates token actor db =
    cas_current-Returns task_id new_status updates token actor
      (find_where (cas_selects task_id (s ∷ more) token) db.tasks) db
