-- ===== src/TaskState/Claim.antt =====
-- What `claim_queued_task` of coderus/workflow/task_state.py does: one queued task is claimed if
-- both quotas leave room, and nothing is changed otherwise.
use coderus.Base.{
  ◌+◌, ◌≤◌, ℕ, ◌<◌, Bool, true, ◌≡◌, refl, sym, ◌∙◌, inl, inr, String, Option, none, some, arith,
  Option-cases,
}
use coderus.Base.Table.{
  bit, find_where, find_where-true, find_where-none, count_where, count_where-none,
  update_where-none,
}
use coderus.Base.Table.Keyed.{count_where_keyed}
use coderus.Store.{TaskStatus, Task, Db, Result, return}
use coderus.Store.Tables.{update_tasks, add_transition, get_task}
use coderus.TaskState.{
  claims, write_claim, claim_queued_task, logged, is_running, is_running_of, contract_version_of,
}
use coderus.TaskState.Cas.{task_id_of, UniqueTasks}
use coderus.TaskState.Graph.{is_claimed, is_edge}
use coderus.TaskState.Keeps.{Keeps}
use coderus.TaskState.Invariant.{Inv, Limits, move-Inv}

module _ (task_id global_limit per_user_limit lease_seconds : ℕ) (token : String) (now : ℕ) where
  module _ (db : Db) where
    abbrev matching : Task → Bool
    matching = claims task_id global_limit per_user_limit db

    abbrev claiming : Task → Task
    claiming = write_claim token now lease_seconds

    abbrev pub claimed_db : Db
    claimed_db =
        let written = update_tasks matching claiming db in
        add_transition
          (logged task_id TaskStatus.queued TaskStatus.preparing "scheduler"
            (contract_version_of (get_task task_id written)))
          written

    -- The outcome of a call.
    pub data ClaimOutcome (r : Result (Option String) × Db) : Type 0 where
      refused : find_where matching db.tasks ≡ none → r ≡ (return none, db) → ClaimOutcome r
      claimed :
          (c : Task)
          → find_where matching db.tasks ≡ some c
          → matching c ≡ true
          → r ≡ (return (some token), claimed_db)
          → ClaimOutcome r

    -- What the condition of the update says of a row.
    pub claims→room :
        (c : Task)
        → matching c ≡ true
        → (c.id ≡ task_id)
          × (c.status ≡ TaskStatus.queued)
          × (count_where is_running db.tasks < global_limit)
          × (count_where (is_running_of c.created_by) db.tasks < per_user_limit)
    unfolding claims
    claims→room c h = ground arith

    only : (c : Task) → matching c ≡ true → (t : Task) → matching t ≡ true → t.id ≡ c.id
    only c hit t m = (claims→room t m).0 ∙ sym (claims→room c hit).0

    pub claim_outcome :
        UniqueTasks db
        → ClaimOutcome
            (claim_queued_task task_id global_limit per_user_limit lease_seconds token now db)
    unfolding claim_queued_task
    claim_outcome u = elim (Option-cases (find_where matching db.tasks)) [
      | inl e ↦
          let off = find_where-none matching db.tasks e in
          ClaimOutcome.refused e (
            rw (count_where-none matching db.tasks off)
              (rw (update_where-none matching claiming db.tasks off)))
      | inr (c, e) ↦
          let hit = find_where-true matching db.tasks e in
          ClaimOutcome.claimed c e hit (
            rw (
              count_where_keyed task_id_of matching claiming c hit (only c hit) matching db.tasks u
                e))
    ]

    abbrev limits : Limits
    limits = record { global_limit = global_limit; per_user_limit = per_user_limit }

    bit-le : (b : Bool) → bit b ≤ 1
    bit-le b = ground arith

    -- The claim takes one place of its user, and none of another's.
    claiming_room :
        (c : Task) (u : ℕ)
        → Inv limits db
        → count_where (is_running_of c.created_by) db.tasks < per_user_limit
        → count_where (is_running_of u) db.tasks + bit (is_running_of u (claiming c))
          ≤ per_user_limit + bit (is_running_of u c)
    unfolding is_running_of write_claim
    claiming_room c u v room = ground (arith, v.user_quota u, bit-le (is_running (claiming c)))

    claiming-Inv :
        (c : Task)
        → Inv limits db
        → find_where matching db.tasks ≡ some c
        → matching c ≡ true
        → Inv limits claimed_db
    unfolding write_claim is_claimed is_edge
    claiming-Inv c v e hit =
        let (id, waiting, room, user_room) = claims→room c hit in
        move-Inv limits _ _ _ _ db c v (record {
          found = e;
          hit = hit;
          only = only c hit;
          keeps_id = λ t. refl;
          to = refl;
          from = sym waiting;
          logs = sym id;
          edge = refl;
          owner = refl;
          room = omega (arith, room, bit-le (is_running (claiming c)));
          user_room = λ u. claiming_room c u v user_room;
        })

    pub claim-Inv :
        Inv limits db
        → Inv limits
            (claim_queued_task task_id global_limit per_user_limit lease_seconds token now db).1
    claim-Inv v = elim (claim_outcome v.unique) [
      | ClaimOutcome.refused e r ↦ rw r v
      | ClaimOutcome.claimed c e hit r ↦ rw r (claiming-Inv c v e hit)
    ]

  pub claim-Keeps :
      Keeps
        (record { global_limit = global_limit; per_user_limit = per_user_limit })
        (claim_queued_task task_id global_limit per_user_limit lease_seconds token now)
  claim-Keeps = record { apply = claim-Inv }
