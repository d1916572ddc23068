-- ===== src/Lib.antt =====
-- Verification of Coderus, a server that has agents work on the issues of repositories: an issue is
-- dispatched as a task, the scheduler claims the task for a worker, the worker has it developed,
-- reviewed and published as a pull request, and a poller follows the pull request to its end.
--
-- The components share one database and meet only there: each reads and writes it in short
-- sessions, and between two of them any other session may commit. A session is therefore a
-- function of the database, and the system is a step relation with one step per session.
--
--   Base          texts, Boolean tests and tables (lists of rows) with the SQL statements on them
--   Store         coderus/models.py and coderus/tasks/statuses.py: the tables, the statuses and
--                 the sessions that return or raise, commit or roll back
--   TaskState     coderus/workflow/task_state.py and coderus/tasks: `cas_task_status`,
--                 `claim_queued_task`, `can_start_task`, `TaskLease.renew`, `heartbeat_loop`;
--                 Graph has the state machine, Invariant and Keeps the invariant of the tables
--   Commands      coderus/application/tasks.py and coderus/workflow/feedback.py
--   Orchestrator  the transactions of a worker in coderus/workflow/orchestrator.py
--   Publication   those in coderus/workflow/publication.py
--   Scheduler     coderus/workflow/scheduler.py: recovery, queue and tick
--   PrStatus      coderus/workflow/pr_status.py
--   Issues        coderus/issues/service.py and coderus/application/issues.py
--   Users         coderus/web/routes/users.py: the switch of a user, which stops the user's tasks
--   System        the sessions of all of these as steps, and what every reachable database meets
--   ModelProxy    coderus/model_proxy/broker.py: leases, usages and their limits
--   PrReview      the review table in coderus/pr_review: orchestrator.py, scheduler.py and the
--                 insertion of service.py
--   Findings      coderus/pr_review/models.py and result.py: the paths and lines of findings, those
--                 that are published, and those that are repeated
--   Forge         coderus/forge/registry.py: which platforms can be reached; Urls has
--                 coderus/forge/urls.py, the addresses of repositories, issues and pull requests
--   AgentOutput   coderus/workflow/agent_stage.py: the last message in the output of an agent
--   Report        coderus/workflow/developer_report.py and reviewer_result.py: reports and verdicts
--   Worker        coderus/workflow/limited_runner.py, agent_stage.py, review_cycle.py, and the run
--                 of publication.py and orchestrator.py. A run is a process: sessions, and between
--                 them calls of what lies outside, whose answers the environment chooses (Steps);
--                 Group has `asyncio.TaskGroup` with the two reviewers, one event loop's tasks that
--                 go on in the order in which their calls come back. A theorem on a process is about
--                 all answers, and where it speaks of the database, about all that other sessions
--                 may commit before each step; Steady ties the run to the invariant of System
--   Tests         runs on concrete data
--
-- Definitions keep the names of the source. A clock's reading, a new secret and a new row's id are
-- arguments; instants are natural numbers of one unit, and a NULL column is `none`. Every loop is a
-- recursion on a list, on the retries that are left or on a process, so no fuel is needed. What lies
-- outside the program (the forge, the order that the database gives rows, the hash of a token,
-- whether a directory exists) is an argument of
-- the definitions that use it.
--
-- Not modelled: the commands of git, HTTP and the processes of the agents (their answers are
-- arguments or answers of a process), the prompts and the texts of requests and errors, the heartbeat
-- thread, the run of a pull request review, the other web pages and the chat integration. The limits of
-- text columns, the foreign keys and the unique index on open tasks are not part of the tables. The
-- synchronous calls of the broker are calls of a process like the others, so that more interleavings
-- are allowed there than one event loop has.
pub mod Base
pub mod Store
pub mod TaskState
pub mod Commands
pub mod Orchestrator
pub mod Publication
pub mod Scheduler
pub mod PrStatus
pub mod Issues
pub mod System
pub mod ModelProxy
pub mod Tests
pub mod PrReview
pub mod Forge
pub mod Findings
pub mod AgentOutput
pub mod Report
pub mod Worker
pub mod Users
