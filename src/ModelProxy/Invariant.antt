-- ===== src/ModelProxy/Invariant.antt =====
-- What holds of the broker between two of its operations.
use coderus.Base.{
  ℕ, ◌+◌, ◌-◌, ◌≤◌, Bool, true, false, not, ◌&&◌, ◌||◌, ◌≡◌, refl, ◌∙◌, ap, String, Option, none,
  some, List, [], ◌∷◌, ltb, leb, if◌then◌else◌, str_eq, is_some, arith, Bool-cases, Option-cases,
  inl, inr,
}
use coderus.Base.Table.{
  All, All-map, find_where, find_where-All, select_where, update_where, update_where-All,
  insert_row, insert_row-All, find_where-none,
}
use coderus.ModelProxy.{
  Lease, Usage, Broker, has_digest, is_usage_of, get_lease, get_usage, update_lease, update_usage,
  put_lease, in_use, drop_usage, remove_found, remove_lease, IssueRequest, count_usage, Permit,
  new_lease, is_valid_request, issue, set_upstream_error, take_upstream_error, validate_found,
  validate, acquire_counted, acquire_found, responses_endpoint, acquire, revoke, release,
  release_permit, record_counted, record_found, record_output,
}

-- The lease's usage is kept, and no more of its requests are under way than it allows.
abbrev pub IsServed : List Usage → Lease → Type 0
IsServed usages l =
    (is_some (find_where (is_usage_of l.task_id l.stage) usages) ≡ true)
    × (l.in_flight ≤ l.max_concurrency)

abbrev pub IsSound : Broker → Type 0
IsSound b = All (IsServed b.usages) b.leases

-- An update of a row that keeps a test finds as many rows.
find_where-update_where :
    {A : Type 0} (p m : A → Bool) (f : A → A)
    → ((x : A) → p (f x) ≡ p x)
    → (xs : List A) → is_some (find_where p (update_where m f xs)) ≡ is_some (find_where p xs)
unfolding find_where update_where
find_where-update_where p m f same [] = refl
find_where-update_where p m f same (x ∷ xs) =
    ground (arith, find_where-update_where p m f same xs, same x)

-- A row that is added hides no other.
find_where-insert_row :
    {A : Type 0} (p : A → Bool) (a : A) (xs : List A)
    → is_some (find_where p (insert_row a xs)) ≡ (is_some (find_where p xs) || p a)
unfolding find_where insert_row
find_where-insert_row p a [] = ground arith
find_where-insert_row p a (x ∷ xs) = ground (arith, find_where-insert_row p a xs)

-- Rows that are kept are found as before.
find_where-select_where :
    {A : Type 0} (p keep : A → Bool)
    → ((x : A) → p x ≡ true → keep x ≡ true)
    → (xs : List A) → find_where p (select_where keep xs) ≡ find_where p xs
unfolding find_where select_where
find_where-select_where p keep kept [] = refl
find_where-select_where p keep kept (x ∷ xs) =
    ground (arith, find_where-select_where p keep kept xs, kept x)

select_where-keeps :
    {A : Type 0} (P : A → Type 0) (p : A → Bool) (xs : List A)
    → All P xs
    → All P (select_where p xs)
unfolding select_where
select_where-keeps P p [] h = tt
select_where-keeps P p (x ∷ xs) h = elim (Bool-cases (p x)) [
  | inl t ↦ rw t (h.0, select_where-keeps P p xs h.1)
  | inr n ↦ rw n (select_where-keeps P p xs h.1)
]

-- Changes that keep the usages which leases refer to.
IsServed-more :
    (usages after : List Usage) (ls : List Lease)
    → ((l : Lease)
        → is_some (find_where (is_usage_of l.task_id l.stage) usages) ≡ true
        → is_some (find_where (is_usage_of l.task_id l.stage) after) ≡ true)
    → All (IsServed usages) ls
    → All (IsServed after) ls
IsServed-more usages after ls more h = All-map ls (λ l s. (more l s.0, s.1)) h

-- A change of counters.
pub update_usage-IsSound :
    (task_id stage : String) (f : Usage → Usage)
    → ((u : Usage) → ((f u).task_id ≡ u.task_id) × ((f u).stage ≡ u.stage))
    → (b : Broker) → IsSound b
    → IsSound (update_usage task_id stage f b)
update_usage-IsSound task_id stage f same b v =
    IsServed-more b.usages _ b.leases
      (λ l h.
        find_where-update_where (is_usage_of l.task_id l.stage) (is_usage_of task_id stage) f
          (λ u. rw ((same u).0, (same u).1) refl) b.usages
        ∙ h)
      v

pub update_lease-IsSound :
    (d : String) (f : Lease → Lease) (b : Broker)
    → ((l : Lease) → has_digest d l ≡ true → IsServed b.usages l → IsServed b.usages (f l))
    → IsSound b
    → IsSound (update_lease d f b)
update_lease-IsSound d f b keep v =
    update_where-All (IsServed b.usages) (has_digest d) f b.leases v (λ l h hit. keep l hit h)

drop_usage-IsSound : (l : Lease) (b : Broker) → IsSound b → IsSound (drop_usage l b)
unfolding drop_usage
drop_usage-IsSound l b v = elim (Option-cases (find_where (in_use l.task_id l.stage) b.leases)) [
  | inr (x, e) ↦ rw e v
  | inl e ↦ rw e (dropped b.leases v (find_where-none (in_use l.task_id l.stage) b.leases e))
]
  where
    apart :
        (x : Lease)
        → in_use l.task_id l.stage x ≡ false
        → (u : Usage) → is_usage_of x.task_id x.stage u ≡ true
        → not (is_usage_of l.task_id l.stage u) ≡ true
    apart x off u hit = ground arith

    dropped :
        (ls : List Lease)
        → All (IsServed b.usages) ls
        → All (λ x. in_use l.task_id l.stage x ≡ false) ls
        → All (IsServed (select_where (λ u. not (is_usage_of l.task_id l.stage u)) b.usages)) ls
    dropped [] h off = tt
    dropped (x ∷ xs) h off = (
      (
        rw
            (find_where-select_where (is_usage_of x.task_id x.stage)
              (λ u. not (is_usage_of l.task_id l.stage u)) (apart x off.0) b.usages)
            (h.0.0),
        h.0.1,
      ),
      dropped xs h.1 off.1,
    )

remove_found-IsSound :
    (d : String) (o : Option Lease) (b : Broker) → IsSound b → IsSound (remove_found d o b).1
unfolding remove_found
remove_found-IsSound d none b v = v
remove_found-IsSound d (some l) b v =
    drop_usage-IsSound l _
      (select_where-keeps (IsServed b.usages) (λ x. not (has_digest d x)) b.leases v)

pub remove_lease-IsSound : (d : String) (b : Broker) → IsSound b → IsSound (remove_lease d b).1
unfolding remove_lease
remove_lease-IsSound d b v = remove_found-IsSound d (get_lease d b) b v

or_true : (x y : Bool) → x ≡ true → (x || y) ≡ true
or_true x y h = ground arith

-- After `issue` has counted, the usage is there.
count_usage-IsSound :
    (r : IssueRequest) (o : Option Usage) (b : Broker) → IsSound b → IsSound (count_usage r o b)
unfolding count_usage
count_usage-IsSound r none b v =
    IsServed-more b.usages _ b.leases
      (λ l h. find_where-insert_row (is_usage_of l.task_id l.stage) _ b.usages ∙ or_true _ _ h) v
count_usage-IsSound r (some u) b v =
    update_usage-IsSound r.task_id r.stage _ (λ u. (refl, refl)) b v

itself : (s : String) → str_eq s s ≡ true
itself s = ground arith

counted :
    (r : IssueRequest) (b : Broker)
    → is_some (
        find_where
          (is_usage_of r.task_id r.stage)
          (count_usage r (get_usage r.task_id r.stage b) b).usages)
      ≡ true
unfolding get_usage
counted r b = elim (Option-cases (get_usage r.task_id r.stage b)) [
  | inl e ↦ rw e (
      unfold count_usage in
      find_where-insert_row (is_usage_of r.task_id r.stage) _ b.usages ∙ last (is_some _))
  | inr (u, e) ↦ rw e (
      unfold count_usage in
      find_where-update_where (is_usage_of r.task_id r.stage) (is_usage_of r.task_id r.stage) _
        (λ u. refl) b.usages
      ∙ ap is_some e)
]
  where
    last : (x : Bool) → (x || (str_eq r.task_id r.task_id && str_eq r.stage r.stage)) ≡ true
    last x = ground (arith, itself r.task_id, itself r.stage)

-- Both branches.
if_IsSound :
    {A : Type 0} (c : Bool) (x y : A × Broker)
    → IsSound x.1
    → IsSound y.1
    → IsSound (if c then x else y).1
if_IsSound true x y v w = v
if_IsSound false x y v w = w

put_lease-IsSound :
    (l : Lease) (b : Broker) → IsServed b.usages l → IsSound b → IsSound (put_lease l b)
put_lease-IsSound l b served v = elim (Bool-cases (is_some (get_lease l.digest b))) [
  | inl e ↦ rw e (update_lease-IsSound l.digest (λ _. l) b (λ _ _ _. served) v)
  | inr e ↦ rw e (insert_row-All (IsServed b.usages) l b.leases served v)
]

pub issue-IsSound :
    (digest : String → String) (is_blank : String → Bool) (configured_model token : String)
    (now : ℕ) (r : IssueRequest) (b : Broker)
    → IsSound b
    → IsSound (issue digest is_blank configured_model token now r b).1
unfolding issue
issue-IsSound digest is_blank configured_model token now r b v =
    elim (Bool-cases (is_valid_request is_blank r)) [
      | inl e ↦ rw e (
          put_lease-IsSound (new_lease digest is_blank configured_model token now r) _
            (counted r b, omega arith) (count_usage-IsSound r _ b v))
      | inr e ↦ rw e v
    ]

acquire_counted-IsSound :
    (d : String) (l : Lease) (o : Option Usage) (b : Broker)
    → IsSound b
    → IsServed b.usages l
    → IsSound (acquire_counted d l o b).1
unfolding acquire_counted
acquire_counted-IsSound d l none b v served = v
acquire_counted-IsSound d l (some u) b v served =
    elim (Bool-cases (leb u.max_requests u.request_count)) [
      | inl e ↦ rw e v
      | inr e ↦ elim (Bool-cases (leb l.max_concurrency l.in_flight)) [
        | inl f ↦ rw (e, f) v
        | inr f ↦
            let after =
              update_usage l.task_id l.stage (λ x. record x { request_count = x.request_count + 1 })
                b in
            let sound =
              update_usage-IsSound l.task_id l.stage
                (λ x. record x { request_count = x.request_count + 1 }) (λ u. (refl, refl)) b v in
            let used : is_some (find_where (is_usage_of l.task_id l.stage) after.usages) ≡ true =
              find_where-update_where (is_usage_of l.task_id l.stage) _ _ (λ u. refl) b.usages
              ∙ served.0 in
            let room : l.in_flight + 1 ≤ l.max_concurrency = ground arith in
            rw (e, f) (update_lease-IsSound d _ after (λ _ _ _. (used, room)) sound)
      ]
    ]

acquire_found-IsSound :
    (d endpoint requested_model : String) (now : ℕ) (o : Option Lease) (b : Broker)
    → IsSound b
    → ((l : Lease) → o ≡ some l → IsServed b.usages l)
    → IsSound (acquire_found d endpoint requested_model now o b).1
unfolding acquire_found
acquire_found-IsSound d endpoint requested_model now none b v served = v
acquire_found-IsSound d endpoint requested_model now (some l) b v served =
    if_IsSound (leb l.expires_at now) _ _ (remove_lease-IsSound d b v) (
      if_IsSound (not (str_eq endpoint responses_endpoint)) _ _ v (
        if_IsSound (not (str_eq requested_model l.model)) _ _ v
          (acquire_counted-IsSound d l _ b v (served l refl))))

-- A lease that is found is served.
pub found-IsServed :
    (d : String) (b : Broker)
    → IsSound b
    → (l : Lease) → get_lease d b ≡ some l
    → IsServed b.usages l
unfolding get_lease
found-IsServed d b v l e = (find_where-All (IsServed b.usages) (has_digest d) b.leases v e).0

pub acquire-IsSound :
    (digest : String → String) (token endpoint requested_model : String) (now : ℕ) (b : Broker)
    → IsSound b
    → IsSound (acquire digest token endpoint requested_model now b).1
unfolding acquire
acquire-IsSound digest token endpoint requested_model now b v = if_IsSound (str_eq token "") _ _ v (
    acquire_found-IsSound (digest token) endpoint requested_model now _ b v
      (found-IsServed (digest token) b v))

pub revoke-IsSound :
    (digest : String → String) (token : String) (b : Broker)
    → IsSound b
    → IsSound (revoke digest token b).1
unfolding revoke
revoke-IsSound digest token b v =
    if_IsSound (str_eq token "") _ _ v (remove_lease-IsSound (digest token) b v)

validate_found-IsSound :
    (d : String) (now : ℕ) (o : Option Lease) (b : Broker)
    → IsSound b
    → IsSound (validate_found d now o b).1
unfolding validate_found
validate_found-IsSound d now none b v = v
validate_found-IsSound d now (some l) b v =
    if_IsSound (leb l.expires_at now) _ _ (remove_lease-IsSound d b v) v

pub validate-IsSound :
    (digest : String → String) (token : String) (now : ℕ) (b : Broker)
    → IsSound b
    → IsSound (validate digest token now b).1
unfolding validate
validate-IsSound digest token now b v =
    if_IsSound (str_eq token "") _ _ v (validate_found-IsSound (digest token) now _ b v)

pub release-IsSound : (d : String) (b : Broker) → IsSound b → IsSound (release d b)
unfolding release
release-IsSound d b v = update_lease-IsSound d _ b (λ l _ served. give_back l served) v
  where
    give_back :
        (l : Lease)
        → IsServed b.usages l
        → IsServed b.usages
            (if ltb 0 l.in_flight then record l { in_flight = l.in_flight - 1 } else l)
    give_back l served = elim (Bool-cases (ltb 0 l.in_flight)) [
      | inl e ↦ rw e (served.0, omega (arith, served.1))
      | inr e ↦ rw e served
    ]

record_counted-IsSound :
    (l : Lease) (size : ℕ) (o : Option Usage) (b : Broker)
    → IsSound b
    → IsSound (record_counted l size o b).1
unfolding record_counted
record_counted-IsSound l size none b v = v
record_counted-IsSound l size (some u) b v =
    if_IsSound (ltb u.max_output_bytes (u.output_bytes + size)) _ _ v
      (update_usage-IsSound l.task_id l.stage _ (λ u. (refl, refl)) b v)

record_found-IsSound :
    (size : ℕ) (o : Option Lease) (b : Broker) → IsSound b → IsSound (record_found size o b).1
unfolding record_found
record_found-IsSound size none b v = v
record_found-IsSound size (some l) b v = record_counted-IsSound l size _ b v

pub record_output-IsSound :
    (d : String) (size : ℕ) (b : Broker) → IsSound b → IsSound (record_output d size b).1
unfolding record_output
record_output-IsSound d size b v = record_found-IsSound size _ b v

-- One call of the broker.
pub data Call : Type 0 where
  issued : String → ℕ → IssueRequest → Call
  error_set : String → Option String → Call
  error_taken : String → Call
  validated : String → ℕ → Call
  acquired : String → String → String → ℕ → Call
  revoked : String → Call
  released : Permit → Call
  recorded : String → ℕ → Call

module _ (digest : String → String) (is_blank : String → Bool) (configured_model : String) where
  unfoldable pub run_call : Call → Broker → Broker
  run_call (issued token now r) b = (issue digest is_blank configured_model token now r b).1
  run_call (error_set token message) b = set_upstream_error digest token message b
  run_call (error_taken token) b = (take_upstream_error digest token b).1
  run_call (validated token now) b = (validate digest token now b).1
  run_call (acquired token endpoint model now) b = (acquire digest token endpoint model now b).1
  run_call (revoked token) b = (revoke digest token b).1
  run_call (released permit) b = (release_permit permit b).1
  run_call (recorded d size) b = (record_output d size b).1

  unfoldable pub run_calls : List Call → Broker → Broker
  run_calls [] b = b
  run_calls (c ∷ cs) b = run_calls cs (run_call c b)

  run_call-IsSound : (c : Call) (b : Broker) → IsSound b → IsSound (run_call c b)
  unfolding run_call set_upstream_error take_upstream_error release_permit
  run_call-IsSound (issued token now r) b v =
      issue-IsSound digest is_blank configured_model token now r b v
  run_call-IsSound (error_set token message) b v =
      update_lease-IsSound (digest token) _ b (λ _ _ served. served) v
  run_call-IsSound (error_taken token) b v =
      update_lease-IsSound (digest token) _ b (λ _ _ served. served) v
  run_call-IsSound (validated token now) b v = validate-IsSound digest token now b v
  run_call-IsSound (acquired token endpoint model now) b v =
      acquire-IsSound digest token endpoint model now b v
  run_call-IsSound (revoked token) b v = revoke-IsSound digest token b v
  run_call-IsSound (released permit) b v =
      if_IsSound permit.released _ _ v (release-IsSound permit.digest b v)
  run_call-IsSound (recorded d size) b v = record_output-IsSound d size b v

  pub run_calls-IsSound : (cs : List Call) (b : Broker) → IsSound b → IsSound (run_calls cs b)
  unfolding run_calls
  run_calls-IsSound [] b v = v
  run_calls-IsSound (c ∷ cs) b v = run_calls-IsSound cs (run_call c b) (run_call-IsSound c b v)
