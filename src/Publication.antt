-- ===== src/Publication.antt =====
-- coderus/workflow/publication.py: the transactions that record a sealed change, its commit and
-- the intent to publish it.
use coderus.Base.{
  ℕ, Bool, true, ◌&&◌, ◌≡◌, refl, String, Option, none, some, [], ◌∷◌, ◌==◌, arith, if◌then◌else◌,
  column_eq, is_some, truthy,
}
use coderus.Base.Table.{find_where}
use coderus.Store.{TaskStatus, status_in, Task, Action, claim_lost, get, pure, throw, ◌>>=◌, ◌>>◌}
use coderus.TaskState.{TaskUpdates, no_updates, assign, cas_task_status, write_task}
use coderus.Orchestrator.{write_held}
use coderus.Orchestrator.Invariant.{held_cas-Keeps, write_held-Keeps}
use coderus.TaskState.Graph.{IsOwned, is_claimed, is_edge}
use coderus.TaskState.Invariant.{Limits}
use coderus.TaskState.Keeps.{
  Keeps, bind-Keeps, get-Keeps, guard-Keeps, pure-Keeps, then-Keeps, throw-Keeps,
}

-- `value or default` of an optional text.
abbrev text_or : Option String → String → String
text_or none fallback = fallback
text_or (some s) fallback = if truthy (some s) then s else fallback

abbrev instant_or : Option ℕ → ℕ → ℕ
instant_or none now = now
instant_or (some t) now = t

abbrev pub publication_updates : Task → String → ℕ → TaskUpdates
publication_updates task key now = record no_updates {
  publication_key = assign (some (text_or task.publication_key key));
  publication_started_at = assign (some (instant_or task.publication_started_at now));
}

abbrev pub begins : ℕ → String → Task → Bool
begins task_id claim_token t = t.id == task_id && column_eq t.claim_token claim_token

unfoldable pub begin_publication_of : ℕ → String → String → ℕ → Option Task → Action String
begin_publication_of task_id claim_token key now none = throw claim_lost
begin_publication_of task_id claim_token key now (some task) = do
  changed ←
      cas_task_status task_id (TaskStatus.preparing ∷ TaskStatus.sealing ∷ []) TaskStatus.publishing
        (publication_updates task key now) (some claim_token) "publisher"
  if changed then pure tt else throw claim_lost
  pure (text_or task.publication_key key)

-- `_begin_publication`; `key` is the new secret, used where the task has none.
unfoldable pub begin_publication : ℕ → String → String → ℕ → Action String
begin_publication task_id claim_token key now = do
  db ← get
  begin_publication_of task_id claim_token key now
      (find_where (begins task_id claim_token) db.tasks)

-- `_set_sealed`
unfoldable pub set_sealed : ℕ → String → String → String → Action (Unit {0})
set_sealed task_id claim_token patch_path tree_sha =
    write_held task_id TaskStatus.sealing claim_token
      (λ t. record t { fixed_patch_path = some patch_path; reviewed_tree_sha = some tree_sha })

-- `_set_commit`
unfoldable pub set_commit : ℕ → String → String → Action (Unit {0})
set_commit task_id claim_token commit_sha =
    write_held task_id TaskStatus.sealing claim_token
      (λ t. record t { commit_sha = some commit_sha })

publishes :
    (task : Task) (key : String) (now : ℕ) (c : Task)
    → is_claimed c.status ≡ true
    → status_in (TaskStatus.preparing ∷ TaskStatus.sealing ∷ []) c.status ≡ true
    → is_some c.claim_token ≡ true
    → (is_edge c.status TaskStatus.publishing ≡ true)
      × IsOwned (write_task TaskStatus.publishing (publication_updates task key now) c)
unfolding is_claimed status_in is_edge write_task
publishes task key now c claimed within held = (ground arith, held)

begin_publication_of-Keeps :
    {l : Limits} (task_id : ℕ) (token key : String) (now : ℕ) (o : Option Task)
    → Keeps l (begin_publication_of task_id token key now o)
unfolding begin_publication_of
begin_publication_of-Keeps task_id token key now none = throw-Keeps _ _
begin_publication_of-Keeps task_id token key now (some task) =
    bind-Keeps _ _
      (held_cas-Keeps task_id TaskStatus.preparing (TaskStatus.sealing ∷ []) TaskStatus.publishing
        (publication_updates task key now) token "publisher" (publishes task key now))
      λ changed. then-Keeps _ _ (guard-Keeps changed claim_lost) (pure-Keeps _)

pub begin_publication-Keeps :
    {l : Limits} (task_id : ℕ) (token key : String) (now : ℕ)
    → Keeps l (begin_publication task_id token key now)
unfolding begin_publication
begin_publication-Keeps task_id token key now =
    bind-Keeps _ _ get-Keeps λ db. begin_publication_of-Keeps task_id token key now _

pub set_sealed-Keeps :
    {l : Limits} (task_id : ℕ) (token patch_path tree_sha : String)
    → Keeps l (set_sealed task_id token patch_path tree_sha)
unfolding set_sealed
set_sealed-Keeps task_id token patch_path tree_sha =
    write_held-Keeps task_id TaskStatus.sealing token _ (record {
      id = λ t. refl;
      status = λ t. refl;
      claim_token = λ t. refl;
      created_by = λ t. refl;
    })

pub set_commit-Keeps :
    {l : Limits} (task_id : ℕ) (token commit_sha : String)
    → Keeps l (set_commit task_id token commit_sha)
unfolding set_commit
set_commit-Keeps task_id token commit_sha =
    write_held-Keeps task_id TaskStatus.sealing token _ (record {
      id = λ t. refl;
      status = λ t. refl;
      claim_token = λ t. refl;
      created_by = λ t. refl;
    })
