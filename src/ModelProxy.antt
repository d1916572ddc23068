-- ===== src/ModelProxy.antt =====
-- coderus/model_proxy/broker.py: the short-lived tokens of the model proxy, with the limits of each
-- lease and the usage of each stage of a task. Every operation runs under the broker's lock, so it
-- is one function of the broker's state.
pub mod Invariant
pub mod Limits
use coderus.Base.{
  ℕ, ◌+◌, ◌-◌, Bool, true, false, not, ◌&&◌, ◌||◌, String, Option, none, some, List, [], ◌∷◌, ◌==◌,
  ltb, leb, if◌then◌else◌, str_eq, is_some, is_empty, string_dec, min,
}
use coderus.Base.Table.{find_where, select_where, update_where, insert_row}

-- `_Lease`, with its key in the dict of leases.
pub record Lease : Type 0 where
  pub digest : String
  pub expires_at : ℕ
  pub task_id : String
  pub stage : String
  pub model : String
  pub max_concurrency : ℕ
  pub in_flight : ℕ
  pub upstream_error : Option String

-- `_Usage`, with its key in the dict of usages.
pub record Usage : Type 0 where
  pub task_id : String
  pub stage : String
  pub max_requests : ℕ
  pub max_output_bytes : ℕ
  pub request_count : ℕ
  pub output_bytes : ℕ

pub record Broker : Type 0 where
  pub leases : List Lease
  pub usages : List Usage

-- What an operation gives: a value, `LeaseRejected` with its status code, a `ValueError`, or the
-- `KeyError` of a lookup in the dict of usages.
pub data Outcome (A : Type 0) : Type 0 where
  done : A → Outcome A
  rejected : ℕ → Outcome A
  bad_argument : Outcome A
  key_error : Outcome A

abbrev pub has_digest : String → Lease → Bool
has_digest d l = str_eq l.digest d

abbrev pub is_usage_of : String → String → Usage → Bool
is_usage_of task_id stage u = str_eq u.task_id task_id && str_eq u.stage stage

unfoldable pub get_lease : String → Broker → Option Lease
get_lease d b = find_where (has_digest d) b.leases

unfoldable pub get_usage : String → String → Broker → Option Usage
get_usage task_id stage b = find_where (is_usage_of task_id stage) b.usages

abbrev pub update_lease : String → (Lease → Lease) → Broker → Broker
update_lease d f b = record b { leases = update_where (has_digest d) f b.leases }

abbrev pub update_usage : String → String → (Usage → Usage) → Broker → Broker
update_usage task_id stage f b = record b {
  usages = update_where (is_usage_of task_id stage) f b.usages;
}

-- `d[key] = lease`, which replaces the value of a key that is present.
abbrev put_lease : Lease → Broker → Broker
put_lease l b =
    if is_some (get_lease l.digest b)
    then update_lease l.digest (λ _. l) b
    else record b { leases = insert_row l b.leases }

abbrev pub in_use : String → String → Lease → Bool
in_use task_id stage l = str_eq l.task_id task_id && str_eq l.stage stage

-- `_remove_lease`: the usage goes with the last lease of its task and stage.
unfoldable pub drop_usage : Lease → Broker → Broker
drop_usage l b =
    if is_some (find_where (in_use l.task_id l.stage) b.leases)
    then b
    else record b { usages = select_where (λ u. not (is_usage_of l.task_id l.stage u)) b.usages }

unfoldable pub remove_found : String → Option Lease → Broker → Bool × Broker
remove_found d none b = (false, b)
remove_found d (some l) b =
    (true, drop_usage l (record b { leases = select_where (λ x. not (has_digest d x)) b.leases }))

unfoldable pub remove_lease : String → Broker → Bool × Broker
remove_lease d b = remove_found d (get_lease d b) b

-- The arguments of `issue`; times are counted in a unit that the clock and `ttl` share.
pub record IssueRequest : Type 0 where
  pub task_id : String
  pub stage : String
  pub ttl : ℕ
  pub max_requests : ℕ
  pub max_concurrency : ℕ
  pub max_output_bytes : ℕ

unfoldable pub count_usage : IssueRequest → Option Usage → Broker → Broker
count_usage r none b = record b {
  usages =
      insert_row
        (record {
          task_id = r.task_id;
          stage = r.stage;
          max_requests = r.max_requests;
          max_output_bytes = r.max_output_bytes;
          request_count = 0;
          output_bytes = 0;
        })
        b.usages;
}
count_usage r (some _) b =
    update_usage r.task_id r.stage
      (λ u. record u {
        max_requests = min u.max_requests r.max_requests;
        max_output_bytes = min u.max_output_bytes r.max_output_bytes;
      })
      b

-- A `LeasePermit`: whose it is, and the digest by which it reaches the broker.
pub record Permit : Type 0 where
  pub task_id : String
  pub stage : String
  pub digest : String
  pub released : Bool

abbrev pub responses_endpoint : String
responses_endpoint = "/v1/responses"

-- The checks of `issue`; `is_blank` is whether `strip` leaves nothing of a text.
unfoldable pub is_valid_request : (String → Bool) → IssueRequest → Bool
is_valid_request is_blank r =
    not (is_blank r.task_id)
    && not (is_blank r.stage)
    && not (r.ttl == 0)
    && not (r.max_requests == 0)
    && not (r.max_concurrency == 0)
    && not (r.max_output_bytes == 0)

abbrev error_of : Option Lease → Option String
error_of none = none
error_of (some l) = l.upstream_error

unfoldable pub validate_found : String → ℕ → Option Lease → Broker → Bool × Broker
validate_found d now none b = (false, b)
validate_found d now (some l) b =
    if leb l.expires_at now then (false, (remove_lease d b).1) else (true, b)

unfoldable pub acquire_counted : String → Lease → Option Usage → Broker → Outcome Permit × Broker
acquire_counted d l none b = (key_error, b)
acquire_counted d l (some u) b =
    if leb u.max_requests u.request_count
    then (rejected 429, b)
    else (if leb l.max_concurrency l.in_flight then (rejected 429, b) else (
      done (record { task_id = l.task_id; stage = l.stage; digest = d; released = false }),
      update_lease d (λ _. record l { in_flight = l.in_flight + 1 })
          (update_usage l.task_id l.stage (λ x. record x { request_count = x.request_count + 1 })
            b),
    ))

unfoldable pub acquire_found :
    String → String → String → ℕ → Option Lease → Broker → Outcome Permit × Broker
acquire_found d endpoint requested_model now none b = (rejected 401, b)
acquire_found d endpoint requested_model now (some l) b =
    if leb l.expires_at now
    then (rejected 401, (remove_lease d b).1)
    else (if not (str_eq endpoint responses_endpoint)
        then (rejected 403, b)
        else (if not (str_eq requested_model l.model)
            then (rejected 403, b)
            else acquire_counted d l (get_usage l.task_id l.stage b) b))

-- `digest` is the hash of a token.
module _ (digest : String → String) where
  -- `set_upstream_error`
  unfoldable pub set_upstream_error : String → Option String → Broker → Broker
  set_upstream_error token message b =
      update_lease (digest token) (λ l. record l { upstream_error = message }) b

  -- `take_upstream_error`
  unfoldable pub take_upstream_error : String → Broker → Option String × Broker
  take_upstream_error token b = (
    error_of (get_lease (digest token) b),
    update_lease (digest token) (λ l. record l { upstream_error = none }) b,
  )

  -- `validate`
  unfoldable pub validate : String → ℕ → Broker → Bool × Broker
  validate token now b =
      if str_eq token ""
      then (false, b)
      else validate_found (digest token) now (get_lease (digest token) b) b

  -- `acquire`
  unfoldable pub acquire : String → String → String → ℕ → Broker → Outcome Permit × Broker
  acquire token endpoint requested_model now b =
      if str_eq token ""
      then (rejected 401, b)
      else acquire_found (digest token) endpoint requested_model now (get_lease (digest token) b) b

  -- `revoke`
  unfoldable pub revoke : String → Broker → Bool × Broker
  revoke token b = if str_eq token "" then (false, b) else remove_lease (digest token) b

  module _ (is_blank : String → Bool) (configured_model : String) where
    abbrev pub new_lease : String → ℕ → IssueRequest → Lease
    new_lease token now r = record {
      digest = digest token;
      expires_at = now + r.ttl;
      task_id = r.task_id;
      stage = r.stage;
      model = configured_model;
      max_concurrency = r.max_concurrency;
      in_flight = 0;
      upstream_error = none;
    }

    -- `issue`, with the new secret as `token`.
    unfoldable pub issue : String → ℕ → IssueRequest → Broker → Outcome String × Broker
    issue token now r b =
        if is_valid_request is_blank r
        then (
          done token,
          put_lease (new_lease token now r) (count_usage r (get_usage r.task_id r.stage b) b),
        )
        else (bad_argument, b)

abbrev snapshot : Option Usage → Option (ℕ × ℕ)
snapshot none = none
snapshot (some u) = some (u.request_count, u.output_bytes)

-- `usage`
unfoldable pub usage : String → String → Broker → Option (ℕ × ℕ)
usage task_id stage b = snapshot (get_usage task_id stage b)

-- `_release`
unfoldable pub release : String → Broker → Broker
release d b =
    update_lease d (λ l. if ltb 0 l.in_flight then record l { in_flight = l.in_flight - 1 } else l)
      b

-- `LeasePermit.release`: a permit is given back once.
unfoldable pub release_permit : Permit → Broker → Permit × Broker
release_permit p b =
    if p.released then (p, b) else (record p { released = true }, release p.digest b)

unfoldable pub record_counted : Lease → ℕ → Option Usage → Broker → Outcome (Unit {0}) × Broker
record_counted l size none b = (key_error, b)
record_counted l size (some u) b =
    if ltb u.max_output_bytes (u.output_bytes + size) then (rejected 429, b) else (
      done tt,
      update_usage l.task_id l.stage (λ x. record x { output_bytes = x.output_bytes + size }) b,
    )

unfoldable pub record_found : ℕ → Option Lease → Broker → Outcome (Unit {0}) × Broker
record_found size none b = (rejected 401, b)
record_found size (some l) b = record_counted l size (get_usage l.task_id l.stage b) b

-- `_record_output`
unfoldable pub record_output : String → ℕ → Broker → Outcome (Unit {0}) × Broker
record_output d size b = record_found size (get_lease d b) b
