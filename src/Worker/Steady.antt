-- ===== src/Worker/Steady.antt =====
-- Processes whose every session keeps the invariant of the tables.
use coderus.Base.{ℕ, zero, suc, leb, Option, none, some, Bool, true, false, if◌then◌else◌}
use coderus.Store.{Db, Action, Result, return, raise, Failure, worker_cancelled}
use coderus.TaskState.Invariant.{Limits, Inv}
use coderus.TaskState.Keeps.{Keeps}
use coderus.Worker.Steps.{
  Reply, broken, fine, ran, used, text, sealed, prepared, published, first, second, Process,
  finished, session, ask, atomic, done, fail_with, rescue, expect, value_or_other, ◌>>=◌, ◌>>◌,
}
use coderus.Worker.{pause, woken, is_retryable, retry_from, retry_agent_operation}
use coderus.Worker.Group.{settled, turn, has_failed, both, alone, group}

module _ (l : Limits) where
  module _ {A : Type 0} where
    -- The sessions keep it, whatever they find and whatever the calls answer.
    abbrev pub Steady : Process A → Type 0
    Steady (finished r) = Unit
    Steady (session w k) = ((db : Db) → Inv l db → Inv l (w db)) × ((db : Db) → Steady (k db))
    Steady (ask k) = (r : Reply) → Steady (k r)

    pub Steady-atomic : (m : Action A) → Keeps l m → Steady (atomic m)
    Steady-atomic m h = (h.apply, λ db. tt)

    pub Steady-rescue :
        (p : Process A) (handler : Failure → Process A)
        → Steady p
        → ((e : Failure) → Steady (handler e))
        → Steady (rescue p handler)
    unfolding rescue
    Steady-rescue (finished (return a)) handler h k = tt
    Steady-rescue (finished (raise e)) handler h k = k e
    Steady-rescue (session w f) handler h k = (h.0, λ db. Steady-rescue (f db) handler (h.1 db) k)
    Steady-rescue (ask f) handler h k = λ r. Steady-rescue (f r) handler (h r) k

    Steady-value_or_other : (o : Option A) → Steady (value_or_other o)
    Steady-value_or_other none = tt
    Steady-value_or_other (some a) = tt

    pub Steady-expect : (value : Reply → Option A) → Steady (ask (expect value))
    unfolding expect
    Steady-expect value (broken e) = tt
    Steady-expect value fine = Steady-value_or_other (value fine)
    Steady-expect value (ran result) = Steady-value_or_other (value (ran result))
    Steady-expect value (used usage) = Steady-value_or_other (value (used usage))
    Steady-expect value (text s) = Steady-value_or_other (value (text s))
    Steady-expect value (sealed s t) = Steady-value_or_other (value (sealed s t))
    Steady-expect value (prepared p) = Steady-value_or_other (value (prepared p))
    Steady-expect value (published p) = Steady-value_or_other (value (published p))
    Steady-expect value (first r) = Steady-value_or_other (value (first r))
    Steady-expect value (second r) = Steady-value_or_other (value (second r))

    pub Steady-if : (b : Bool) (p q : Process A) → Steady p → Steady q → Steady (if b then p else q)
    Steady-if true p q h k = h
    Steady-if false p q h k = k

    Steady-turn :
        (r : Reply) (left right : Reply → Process A) (neither : Process A)
        → ((s : Reply) → Steady (left s))
        → ((s : Reply) → Steady (right s))
        → Steady neither
        → Steady (turn r left right neither)
    unfolding turn
    Steady-turn (first r) left right neither h k o = h r
    Steady-turn (second r) left right neither h k o = k r
    Steady-turn (broken e) left right neither h k o = o
    Steady-turn fine left right neither h k o = o
    Steady-turn (ran result) left right neither h k o = o
    Steady-turn (used usage) left right neither h k o = o
    Steady-turn (text s) left right neither h k o = o
    Steady-turn (sealed s t) left right neither h k o = o
    Steady-turn (prepared p) left right neither h k o = o
    Steady-turn (published p) left right neither h k o = o

  module _ {A B : Type 0} where
    pub Steady->>= :
        (p : Process A) (f : A → Process B) → Steady p → ((a : A) → Steady (f a)) → Steady (p >>= f)
    unfolding ◌>>=◌
    Steady->>= (finished (return a)) f h k = k a
    Steady->>= (finished (raise e)) f h k = tt
    Steady->>= (session w g) f h k = (h.0, λ db. Steady->>= (g db) f (h.1 db) k)
    Steady->>= (ask g) f h k = λ r. Steady->>= (g r) f (h r) k

    pub Steady->> : (p : Process A) (q : Process B) → Steady p → Steady q → Steady (p >> q)
    unfolding ◌>>◌
    Steady->> p q h k = Steady->>= p (λ _. q) h (λ _. k)

  module _ {A : Type 0} where
    pub Steady-settled : (p : Process A) → Steady p → Steady (settled p)
    Steady-settled p h =
        Steady-rescue _ (λ e. done (raise e)) (Steady->>= p (λ a. done (return a)) h (λ a. tt))
          (λ e. tt)

    Steady-retry_from :
        (left : ℕ) (p : Process A) (restore : Process (Unit {0}))
        → Steady p
        → Steady restore
        → Steady (retry_from left p restore)
    unfolding retry_from
    Steady-retry_from zero p restore h k = h
    Steady-retry_from (suc left) p restore h k =
        let next = Steady-retry_from left p restore h k in
        Steady-rescue p _ h (λ e.
          Steady-if (is_retryable e) _ (fail_with e)
            (Steady->> restore _ k (Steady->> pause _ (Steady-expect woken) next)) tt)

    pub Steady-retry :
        (n : ℕ) (p : Process A) (restore : Process (Unit {0}))
        → Steady p
        → Steady restore
        → Steady (retry_agent_operation n p restore)
    unfolding retry_agent_operation
    Steady-retry n p restore h k =
        Steady-if (leb n 2) _ (fail_with _) (Steady-retry_from n p restore h k) tt

  module _ {A B : Type 0} where
    Steady-both : (p : Process A) (q : Process B) → Steady p → Steady q → Steady (both p q)
    unfolding both
    Steady-both (finished a) q h k = Steady->>= (settled q) _ (Steady-settled q k) (λ b. tt)
    Steady-both (session w f) q h k = (h.0, λ db. Steady-both (f db) q (h.1 db) k)
    Steady-both (ask f) (finished b) h k =
        Steady->>= (settled (ask f)) _ (Steady-settled (ask f) h) (λ a. tt)
    Steady-both (ask f) (session w g) h k = (k.0, λ db. Steady-both (ask f) (g db) h (k.1 db))
    Steady-both (ask f) (ask g) h k = λ r.
        Steady-turn r _ _ _ (λ s. Steady-both (f s) (ask g) (h s) k)
          (λ s. Steady-both (ask f) (g s) h (k s)) (Steady-both (f r) (ask g) (h r) k)

  module _ {A C : Type 0} where
    -- A task that is cancelled at its call.
    Steady-interrupted :
        (was_cancelled : Bool) (end : Bool → Result A → Result C) (f : Reply → Process A)
        → Steady (ask f)
        → Steady (settled (f (broken worker_cancelled)) >>= λ a. finished (end was_cancelled a))
    Steady-interrupted was_cancelled end f h =
        Steady->>= (settled (f (broken worker_cancelled))) (λ a. finished (end was_cancelled a))
          (Steady-settled _ (h (broken worker_cancelled))) (λ a. tt)

    Steady-alone :
        (failed : Bool) (end : Bool → Result A → Result C) (p : Process A)
        → Steady p
        → Steady (alone failed end p)
    unfolding alone
    Steady-alone failed end (finished a) h = tt
    Steady-alone failed end (session w k) h = (h.0, λ db. Steady-alone failed end (k db) (h.1 db))
    Steady-alone true end (ask k) h = Steady-interrupted false end k h
    Steady-alone false end (ask k) h = λ r.
        Steady-turn r _ _ _ (λ s. Steady-alone false end (k s) (h s))
          (λ s. Steady-alone false end (k s) (h s)) (Steady-interrupted true end k h)

  module _ {A B : Type 0} where
    pub Steady-group : (p : Process A) (q : Process B) → Steady p → Steady q → Steady (group p q)
    unfolding group
    Steady-group (finished a) q h k = Steady-alone (has_failed a) _ q k
    Steady-group (session w f) q h k = (h.0, λ db. Steady-group (f db) q (h.1 db) k)
    Steady-group (ask f) (finished b) h k = Steady-alone (has_failed b) _ (ask f) h
    Steady-group (ask f) (session w g) h k = (k.0, λ db. Steady-group (ask f) (g db) h (k.1 db))
    Steady-group (ask f) (ask g) h k = λ r.
        Steady-turn r _ _ _ (λ s. Steady-group (f s) (ask g) (h s) k)
          (λ s. Steady-group (ask f) (g s) h (k s))
          (Steady->>= (both (f (broken worker_cancelled)) (g (broken worker_cancelled))) _
            (Steady-both _ _ (h (broken worker_cancelled)) (k (broken worker_cancelled))) (λ _. tt))
