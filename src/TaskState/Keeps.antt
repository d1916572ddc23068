-- ===== src/TaskState/Keeps.antt =====
-- Actions that keep the invariant: the rules for composed actions, and the rule for a
-- conditional update.
use coderus.Base.{
  ℕ, ◌+◌, ◌≤◌, Bool, true, false, ◌≡◌, refl, sym, ◌∙◌, String, Option, some, List, [], ◌∷◌, arith,
  if◌then◌else◌,
}
use coderus.Base.Table.{bit, find_where, find_where-All}
use coderus.Store.{
  TaskStatus, status_in, Task, Db, Result, return, running_task_states, raise, Action, and_then,
  ◌>>=◌, ◌>>◌, transaction, settle, commit_if, keep_if, get, pure, throw, Failure,
}
use coderus.TaskState.{
  TaskUpdates, token_matches, cas_selects, cas_task_status, write_task, is_running, is_running_of,
}
use coderus.TaskState.Cas.{
  selects→matches, selects→expected, matches→id, CasOutcome, cas_outcome, moved_db,
}
use coderus.TaskState.Graph.{is_edge, IsOwned}
use coderus.TaskState.Invariant.{Limits, Inv, move-Inv}

-- A move that does not start a run leaves as much room as there was.
calm_room :
    (c d : Task) (n limit : ℕ)
    → (is_running d ≡ true → is_running c ≡ true)
    → n ≤ limit
    → n + bit (is_running d) ≤ limit + bit (is_running c)
calm_room c d n limit calm h = ground (arith, calm)

calm_user_room :
    (c d : Task) (u n limit : ℕ)
    → (status_in running_task_states d.status ≡ true
        → status_in running_task_states c.status ≡ true)
    → d.created_by ≡ c.created_by
    → n ≤ limit
    → n + bit (is_running_of u d) ≤ limit + bit (is_running_of u c)
unfolding is_running_of is_running
calm_user_room c d u n limit calm same h = ground (arith, calm)

-- A conditional update keeps the invariant where it follows edges and keeps the ownership.
module _ (task_id : ℕ) (s : TaskStatus) (more : List TaskStatus) (new_status : TaskStatus)
    (updates : TaskUpdates) (token : Option String) (actor : String) where
  abbrev pub Allowed : Task → Type 0
  Allowed c =
      IsOwned c
      → status_in (s ∷ more) c.status ≡ true
      → token_matches token c.claim_token ≡ true
      → (is_edge c.status new_status ≡ true)
        × IsOwned (write_task new_status updates c)
        × (status_in running_task_states new_status ≡ true
            → status_in running_task_states c.status ≡ true)

  moved_db-Inv :
      {l : Limits} (db : Db) (c : Task)
      → Inv l db
      → ((c : Task) → Allowed c)
      → find_where (cas_selects task_id (s ∷ more) token) db.tasks ≡ some c
      → cas_selects task_id (s ∷ more) token c ≡ true
      → Inv l (moved_db task_id new_status updates token actor c db)
  unfolding write_task
  moved_db-Inv {l} db c v allowed e hit =
      let (id, within, holder) = selects→expected task_id (s ∷ more) token c hit in
      let owned =
        (find_where-All IsOwned (cas_selects task_id (s ∷ more) token) db.tasks v.owned e).0 in
      let (edge, owner, calm) = allowed c owned within holder in
      move-Inv l _ _ _ _ db c v (record {
        found = e;
        hit = selects→matches task_id (s ∷ more) token c hit;
        only = λ t m. matches→id task_id c.status token t m ∙ sym id;
        keeps_id = λ t. refl;
        to = refl;
        from = refl;
        logs = sym id;
        edge = edge;
        owner = owner;
        room =
            calm_room c (write_task new_status updates c) _ _ (unfold is_running in calm) v.quota;
        user_room = λ u.
            calm_user_room c (write_task new_status updates c) u _ _ calm refl (v.user_quota u);
      })

  cas-Inv :
      {l : Limits} (db : Db)
      → Inv l db
      → ((c : Task) → Allowed c)
      → Inv l (cas_task_status task_id (s ∷ more) new_status updates token actor db).1
  cas-Inv {l} db v allowed =
      elim (cas_outcome task_id new_status updates token actor s more db v.unique) [
        | CasOutcome.refused e r ↦ rw r v
        | CasOutcome.moved c e hit r ↦ rw r (moved_db-Inv db c v allowed e hit)
      ]

pub status_in-single : (expected s : TaskStatus) → status_in (expected ∷ []) s ≡ true → s ≡ expected
unfolding status_in
status_in-single expected s h = ground arith

-- An action that keeps the invariant, on every outcome. The rules for composed actions follow.
pub record Keeps (l : Limits) {A : Type 0} (m : Action A) : Type 0 where
  pub apply : (db : Db) → Inv l db → Inv l (m db).1

module _ {l : Limits} {A B : Type 0} where
  pub bind-Keeps :
      (m : Action A) (f : A → Action B) → Keeps l m → ((a : A) → Keeps l (f a)) → Keeps l (m >>= f)
  unfolding ◌>>=◌
  bind-Keeps m f keep rest = record { apply = λ db v. go (m db).0 (m db).1 (keep.apply db v) }
    where
      go : (r : Result A) (db : Db) → Inv l db → Inv l (and_then {A = A} {B = B} r f db).1
      go (return a) db v = (rest a).apply db v
      go (raise e) db v = v

  pub then-Keeps : (m : Action A) (n : Action B) → Keeps l m → Keeps l n → Keeps l (m >> n)
  unfolding ◌>>◌
  then-Keeps m n keep rest = bind-Keeps m (λ _. n) keep (λ _. rest)

pub get-Keeps : {l : Limits} → Keeps l get
unfolding get
get-Keeps = record { apply = λ db v. v }

module _ {l : Limits} {A : Type 0} where
  pub pure-Keeps : (a : A) → Keeps l (pure a)
  unfolding pure
  pure-Keeps a = record { apply = λ db v. v }

  -- An outside answer, which leaves the database alone.
  pub read-Keeps : (f : Db → Result A) → Keeps l (λ db. (f db, db))
  read-Keeps f = record { apply = λ db v. v }

pub if-Keeps :
    {l : Limits} {A : Type 0} (b : Bool) (m n : Action A)
    → (b ≡ true → Keeps l m)
    → (b ≡ false → Keeps l n)
    → Keeps l (if b then m else n)
if-Keeps true m n hm hn = hm refl
if-Keeps false m n hm hn = hn refl

pub throw-Keeps : {l : Limits} (A : Type 0) (e : Failure) → Keeps l (throw {A = A} e)
unfolding throw
throw-Keeps A e = record { apply = λ db v. v }

-- A guard.
pub guard-Keeps :
    {l : Limits} (b : Bool) (e : Failure) → Keeps l (if b then pure tt else throw {A = Unit {0}} e)
guard-Keeps b e = if-Keeps b (pure tt) (throw e) (λ _. pure-Keeps tt) (λ _. throw-Keeps _ e)

-- A transaction whose block keeps the invariant of one database keeps it there.
pub transaction-Inv :
    {l : Limits} {A : Type 0} (m : Action A) (db : Db)
    → Inv l db
    → Inv l (m db).1
    → Inv l (transaction m db).1
unfolding transaction
transaction-Inv {l} {A} m db v w = go (m db).0 (m db).1 w
  where
    go : (r : Result A) (after : Db) → Inv l after → Inv l (settle db r after).1
    go (return a) after w = w
    go (raise e) after w = v

pub transaction-Keeps :
    {l : Limits} {A : Type 0} (m : Action A) → Keeps l m → Keeps l (transaction m)
transaction-Keeps m keep = record { apply = λ db v. transaction-Inv m db v (keep.apply db v) }

pub commit_if-Keeps : {l : Limits} (m : Action Bool) → Keeps l m → Keeps l (commit_if m)
unfolding commit_if
commit_if-Keeps {l} m keep = record { apply = λ db v. go db v (m db).0 (m db).1 (keep.apply db v) }
  where
    go :
        (db : Db)
        → Inv l db
        → (r : Result Bool) (after : Db) → Inv l after
        → Inv l (keep_if db r after).1
    go db v (return true) after w = w
    go db v (return false) after w = v
    go db v (raise e) after w = v

module _ (task_id : ℕ) (s : TaskStatus) (more : List TaskStatus) (new_status : TaskStatus)
    (updates : TaskUpdates) (token : Option String) (actor : String) where
  pub cas-Keeps :
      {l : Limits}
      → ((c : Task) → Allowed task_id s more new_status updates token actor c)
      → Keeps l (cas_task_status task_id (s ∷ more) new_status updates token actor)
  cas-Keeps allowed = record {
    apply = λ db v. cas-Inv task_id s more new_status updates token actor db v allowed;
  }
