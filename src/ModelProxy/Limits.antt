-- ===== src/ModelProxy/Limits.antt =====
-- What the limits of the model proxy's leases come to.
use coderus.Base.{
  ℕ, ◌+◌, ◌≤◌, ◌<◌, Bool, true, false, not, ◌≡◌, refl, sym, ap, String, Option, none, some, List,
  [], ltb, leb, if◌then◌else◌, str_eq, is_some, arith, Bool-cases, Option-cases, inl, inr,
}
use coderus.Base.Table.{All, find_where}
use coderus.ModelProxy.{
  Lease, Usage, Broker, Outcome, done, rejected, key_error, is_usage_of, get_lease, get_usage,
  update_lease, update_usage, Permit, responses_endpoint, remove_lease, acquire_counted,
  acquire_found, acquire, record_counted, record_found, record_output,
}
use coderus.ModelProxy.Invariant.{
  IsServed, IsSound, Call, run_calls, run_calls-IsSound, found-IsServed,
}

abbrev pub empty_broker : Broker
empty_broker = record { leases = []; usages = [] }

module _ (digest : String → String) (is_blank : String → Bool) (configured_model : String) where
  -- After any calls on a new broker every lease has a usage for its task and stage, and no more
  -- requests under way than it allows.
  pub leases_served :
      (calls : List Call)
      → let b = run_calls digest is_blank configured_model calls empty_broker in
        All
          (λ l.
            (is_some (find_where (is_usage_of l.task_id l.stage) b.usages) ≡ true)
            × (l.in_flight ≤ l.max_concurrency))
          b.leases
  leases_served calls = run_calls-IsSound digest is_blank configured_model calls empty_broker tt

-- A value cannot be both a permit and a refusal.
refused :
    {A : Type 0} (status : ℕ) (b c : Broker) (a : A)
    → ¬ (◌≡◌ {A = Outcome A × Broker} (rejected status, b) (done a, c))
refused status b c a e = cc

missing :
    {A : Type 0} (b c : Broker) (a : A)
    → ¬ (◌≡◌ {A = Outcome A × Broker} (key_error, b) (done a, c))
missing b c a e = cc

abbrev granted_db : String → Lease → Broker → Broker
granted_db d l b =
    update_lease d (λ _. record l { in_flight = l.in_flight + 1 })
      (update_usage l.task_id l.stage (λ x. record x { request_count = x.request_count + 1 }) b)

abbrev IsCounted : String → Lease → Broker → Broker → Usage → Type 0
IsCounted d l b after u =
    (u.request_count < u.max_requests)
    × (l.in_flight < l.max_concurrency)
    × (after ≡ granted_db d l b)

acquire_counted_lem :
    (d : String) (l : Lease) (o : Option Usage) (b after : Broker) (p : Permit)
    → acquire_counted d l o b ≡ (done p, after)
    → (u : Usage) × (o ≡ some u) × IsCounted d l b after u
unfolding acquire_counted
acquire_counted_lem d l none b after p e = absurd (missing b after p e)
acquire_counted_lem d l (some u) b after p e =
    elim (Bool-cases (leb u.max_requests u.request_count)) [
      | inl t ↦ absurd (refused 429 b after p (rw t at e))
      | inr n ↦ elim (Bool-cases (leb l.max_concurrency l.in_flight)) [
        | inl t ↦ absurd (refused 429 b after p (rw (n, t) at e))
        | inr m ↦
            let same = rw (n, m) at e in
            (u, refl, (ground arith, ground arith, sym (ap (λ x. x.1) same)))
      ]
    ]

acquire_found_lem :
    (d endpoint requested_model : String) (now : ℕ) (l : Lease) (b after : Broker) (p : Permit)
    → acquire_found d endpoint requested_model now (some l) b ≡ (done p, after)
    → (now < l.expires_at)
      × (endpoint ≡ responses_endpoint)
      × (requested_model ≡ l.model)
      × ((u : Usage) × (get_usage l.task_id l.stage b ≡ some u) × IsCounted d l b after u)
unfolding acquire_found
acquire_found_lem d endpoint requested_model now l b after p e =
    elim (Bool-cases (leb l.expires_at now)) [
      | inl t ↦ absurd (refused 401 (remove_lease d b).1 after p (rw t at e))
      | inr n ↦ elim (Bool-cases (not (str_eq endpoint responses_endpoint))) [
        | inl t ↦ absurd (refused 403 b after p (rw (n, t) at e))
        | inr m ↦ elim (Bool-cases (not (str_eq requested_model l.model))) [
          | inl t ↦ absurd (refused 403 b after p (rw (n, m, t) at e))
          | inr k ↦ (
            ground arith,
            ground arith,
            ground arith,
            acquire_counted_lem d l _ b after p (rw (n, m, k) at e),
          )
        ]
      ]
    ]

-- A permit of the model proxy is given only for a known lease that has not expired, for the one
-- endpoint and the model of the lease, where the stage has requests left and the lease has room;
-- the request is then counted on the usage and on the lease.
pub acquire_permit :
    (digest : String → String) (token endpoint requested_model : String) (now : ℕ)
    (b after : Broker) (p : Permit)
    → acquire digest token endpoint requested_model now b ≡ (done p, after)
    → (l : Lease) × (get_lease (digest token) b ≡ some l)
      × (now < l.expires_at)
      × (endpoint ≡ responses_endpoint)
      × (requested_model ≡ l.model)
      × ((u : Usage) × (get_usage l.task_id l.stage b ≡ some u)
          × (u.request_count < u.max_requests)
          × (l.in_flight < l.max_concurrency)
          × (after
              ≡ update_lease
                  (digest token)
                  (λ _. record l { in_flight = l.in_flight + 1 })
                  (update_usage l.task_id l.stage
                    (λ x. record x { request_count = x.request_count + 1 })
                    b)))
unfolding acquire acquire_found
acquire_permit digest token endpoint requested_model now b after p e =
    elim (Bool-cases (str_eq token "")) [
      | inl t ↦ absurd (refused 401 b after p (rw t at e))
      | inr n ↦ elim (Option-cases (get_lease (digest token) b)) [
        | inl q ↦ absurd (refused 401 b after p (rw (n, q) at e))
        | inr (l, q) ↦
            let (live, at_endpoint, of_model, (u, used, (requests, room, counted))) =
              acquire_found_lem (digest token) endpoint requested_model now l b after p
                (rw (n, q) at e) in
            (l, q, live, at_endpoint, of_model, (u, used, requests, room, counted))
      ]
    ]

if_known :
    {A : Type 0} (c : Bool) (x y : Outcome A × Broker)
    → ¬ (x.0 ≡ key_error)
    → ¬ (y.0 ≡ key_error)
    → ¬ ((if c then x else y).0 ≡ key_error)
if_known true x y h k = h
if_known false x y h k = k

rejected-known : {A : Type 0} (status : ℕ) → ¬ (◌≡◌ {A = Outcome A} (rejected status) key_error)
rejected-known status e = cc

done-known : {A : Type 0} (a : A) → ¬ (◌≡◌ {A = Outcome A} (done a) key_error)
done-known a e = cc

acquire_counted-known :
    (d : String) (l : Lease) (o : Option Usage) (b : Broker)
    → is_some o ≡ true
    → ¬ ((acquire_counted d l o b).0 ≡ key_error)
unfolding acquire_counted
acquire_counted-known d l none b h = cc
acquire_counted-known d l (some u) b h =
    if_known (leb u.max_requests u.request_count) _ _ (rejected-known 429)
      (if_known (leb l.max_concurrency l.in_flight) _ _ (rejected-known 429) (done-known _))

acquire_found-known :
    (d endpoint requested_model : String) (now : ℕ) (o : Option Lease) (b : Broker)
    → ((l : Lease) → o ≡ some l → IsServed b.usages l)
    → ¬ ((acquire_found d endpoint requested_model now o b).0 ≡ key_error)
unfolding acquire_found get_usage
acquire_found-known d endpoint requested_model now none b served = rejected-known 401
acquire_found-known d endpoint requested_model now (some l) b served =
    if_known (leb l.expires_at now) _ _ (rejected-known 401) (
      if_known (not (str_eq endpoint responses_endpoint)) _ _ (rejected-known 403) (
        if_known (not (str_eq requested_model l.model)) _ _ (rejected-known 403)
          (acquire_counted-known d l _ b (served l refl).0)))

record_counted-known :
    (l : Lease) (size : ℕ) (o : Option Usage) (b : Broker)
    → is_some o ≡ true
    → ¬ ((record_counted l size o b).0 ≡ key_error)
unfolding record_counted
record_counted-known l size none b h = cc
record_counted-known l size (some u) b h =
    if_known (ltb u.max_output_bytes (u.output_bytes + size)) _ _ (rejected-known 429)
      (done-known tt)

record_found-known :
    (size : ℕ) (o : Option Lease) (b : Broker)
    → ((l : Lease) → o ≡ some l → IsServed b.usages l)
    → ¬ ((record_found size o b).0 ≡ key_error)
unfolding record_found get_usage
record_found-known size none b served = rejected-known 401
record_found-known size (some l) b served = record_counted-known l size _ b (served l refl).0

-- After any calls on a new broker the lookup of the usage of a lease raises no `KeyError`, in
-- `acquire` and in `_record_output`.
pub usage_found :
    (digest : String → String) (is_blank : String → Bool) (configured_model : String)
    (calls : List Call) (token endpoint requested_model : String) (now size : ℕ)
    → let b = run_calls digest is_blank configured_model calls empty_broker in
      ¬ ((acquire digest token endpoint requested_model now b).0 ≡ key_error)
      × ¬ ((record_output (digest token) size b).0 ≡ key_error)
unfolding acquire record_output
usage_found digest is_blank configured_model calls token endpoint requested_model now size =
    let b = run_calls digest is_blank configured_model calls empty_broker in
    let v : IsSound b = run_calls-IsSound digest is_blank configured_model calls empty_broker tt in
    (
      if_known (str_eq token "") _ _ (rejected-known 401) (
          acquire_found-known (digest token) endpoint requested_model now _ b
            (found-IsServed (digest token) b v)),
      record_found-known size _ b (found-IsServed (digest token) b v),
    )
