-- ===== src/Worker/Publish.antt =====
-- coderus/workflow/publication.py with the calls of git and of the forge, and
-- coderus/tasks/error_codes.py.
use coderus.Base.{ℕ, Bool, ◌||◌, String, Option, none, some, ◌==◌, if◌then◌else◌}
use coderus.Store.{
  TaskStatus, Failure, forge_not_configured, invalid_forge_input, remote, git_push_error,
  resource_limit, timeout, connection, value_error, developer_report_error, declared,
}
use coderus.Orchestrator.{Prepared, Published, set_status}
use coderus.Publication.{begin_publication, set_sealed, set_commit}
use coderus.Worker.Steps.{
  Reply, text, sealed, prepared, published, Process, ask, expect, atomic, done, fail_with, ◌>>=◌,
  ◌>>◌,
}
use coderus.Worker.{pause}

-- `classify_exception`; a code is its text.
unfoldable pub classify_remote : Option ℕ → String
classify_remote none = "upstream_unavailable"
classify_remote (some status_code) =
    if status_code == 401 || status_code == 403 then "forge_auth_failed" else "upstream_unavailable"

unfoldable pub classify_exception : Failure → String
classify_exception (declared code) = code
classify_exception forge_not_configured = "forge_auth_failed"
classify_exception invalid_forge_input = "invalid_input"
classify_exception (remote status_code) = classify_remote status_code
classify_exception git_push_error = "upstream_unavailable"
classify_exception resource_limit = "resource_limit_exceeded"
classify_exception timeout = "side_effect_unknown"
classify_exception connection = "upstream_unavailable"
classify_exception value_error = "invalid_input"
classify_exception developer_report_error = "invalid_input"
classify_exception _ = "internal_error"

-- What is read of the answers of git and of the forge.
abbrev pub text_of : Reply → Option String
text_of (text s) = some s
text_of _ = none

abbrev pub sealed_of : Reply → Option (String × String)
sealed_of (sealed patch_path tree_sha) = some (patch_path, tree_sha)
sealed_of _ = none

abbrev pub prepared_of : Reply → Option Prepared
prepared_of (prepared p) = some p
prepared_of _ = none

abbrev pub published_of : Reply → Option Published
published_of (published p) = some p
published_of _ = none

-- Whether the registry has the forge of the task's repository, and the right to publish there, a
-- new secret, and the time.
pub record PublishInput : Type 0 where
  pub has_forge : Bool
  pub can_publish : Bool
  pub publication_key : String
  pub begun_at : ℕ

-- `forges.require` and `forges.supports`
unfoldable pub require_forge : PublishInput → Process (Unit {0})
require_forge input =
    if input.has_forge
    then (if input.can_publish then done tt else fail_with value_error)
    else fail_with forge_not_configured

-- `TaskPublication.publish`
unfoldable pub publish : PublishInput → ℕ → String → Process Published
publish input task_id claim_token =
    require_forge input
    >> atomic (begin_publication task_id claim_token input.publication_key input.begun_at)
    >> ask (expect published_of)

-- `TaskPublication.publish_existing`
unfoldable pub publish_existing : PublishInput → ℕ → String → Process Published
publish_existing input task_id claim_token = pause >> publish input task_id claim_token

-- `TaskPublication.finalize`: the change is checked, sealed, committed and published.
unfoldable pub finalize : PublishInput → ℕ → String → Process Published
finalize input task_id claim_token =
    pause
    >> atomic (set_status task_id TaskStatus.sealing claim_token)
    >> ask (expect sealed_of)
    >>= λ change.
        atomic (set_sealed task_id claim_token change.0 change.1)
        >> pause
        >> pause
        >> ask (expect text_of)
        >>= λ commit_sha.
            pause
            >> atomic (set_commit task_id claim_token commit_sha)
            >> publish input task_id claim_token
