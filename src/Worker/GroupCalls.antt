-- ===== src/Worker/GroupCalls.antt =====
-- Two tasks of one event loop make no more calls than both by themselves.
use coderus.Base.{ℕ, Bool, true, false, zero, suc, ◌+◌, arith}
use coderus.Store.{Result, return, raise, worker_cancelled}
use coderus.Worker.Steps.{
  Reply, broken, fine, ran, used, text, sealed, prepared, published, first, second, Process,
  finished, session, ask, done, ◌>>=◌, AtMost, AtMost_more, AtMost-rescue, AtMost->>=, shift,
}
use coderus.Worker.Group.{settled, turn, has_failed, both, outcome, alone, group}

module _ {A : Type 0} where
  pub AtMost-settled : (n : ℕ) (p : Process A) → AtMost n p → AtMost n (settled p)
  AtMost-settled n p h =
      let kept = AtMost->>= n 0 p (λ a. done (return a)) h (λ a. tt) in
      AtMost_more (n + 0 + 0) n (settled p)
        (AtMost-rescue (n + 0) 0 _ (λ e. done (raise e)) kept (λ e. tt)) (omega arith)

  swap : (m n : ℕ) (p : Process A) → AtMost (n + m) p → AtMost (m + n) p
  swap m n p h = AtMost_more (n + m) (m + n) p h (omega arith)

  AtMost-turn :
      (n : ℕ) (r : Reply) (left right : Reply → Process A) (neither : Process A)
      → ((s : Reply) → AtMost n (left s))
      → ((s : Reply) → AtMost n (right s))
      → AtMost n neither
      → AtMost n (turn r left right neither)
  unfolding turn
  AtMost-turn n (first r) left right neither h k o = h r
  AtMost-turn n (second r) left right neither h k o = k r
  AtMost-turn n (broken e) left right neither h k o = o
  AtMost-turn n fine left right neither h k o = o
  AtMost-turn n (ran result) left right neither h k o = o
  AtMost-turn n (used usage) left right neither h k o = o
  AtMost-turn n (text s) left right neither h k o = o
  AtMost-turn n (sealed s t) left right neither h k o = o
  AtMost-turn n (prepared p) left right neither h k o = o
  AtMost-turn n (published p) left right neither h k o = o

module _ {A B : Type 0} where
  -- A process and then nothing more to call.
  AtMost_last :
      (m n : ℕ) (p : Process A) (f : A → Process B)
      → AtMost n p
      → ((a : A) → AtMost 0 (f a))
      → AtMost (m + n) (p >>= f)
  AtMost_last m n p f h k =
      AtMost_more (n + 0) (m + n) (p >>= f) (AtMost->>= n 0 p f h k) (omega arith)

module _ {A B : Type 0} where
  AtMost-both :
      (m n : ℕ) (p : Process A) (q : Process B)
      → AtMost m p
      → AtMost n q
      → AtMost (m + n) (both p q)
  unfolding both
  AtMost-both m n (finished a) q h k =
      AtMost_last m n (settled q) _ (AtMost-settled n q k) (λ b. tt)
  AtMost-both m n (session w f) q h k = λ db. AtMost-both m n (f db) q (h db) k
  AtMost-both m n (ask f) (finished b) h k =
      swap m n (settled (ask f) >>= λ a. done (a, b)) (
        AtMost_last n m (settled (ask f)) (λ a. done (a, b)) (AtMost-settled m (ask f) h) (λ a. tt))
  AtMost-both m n (ask f) (session w g) h k = λ db. AtMost-both m n (ask f) (g db) h (k db)
  AtMost-both m zero (ask f) (ask g) h k = elim k [ ]
  AtMost-both zero (suc n) (ask f) (ask g) h k = elim h [ ]
  AtMost-both (suc m) (suc n) (ask f) (ask g) h k = rw (shift m (suc n)) (λ r.
      AtMost-turn (m + suc n) r _ _ _ (λ s. AtMost-both m (suc n) (f s) (ask g) (h s) k)
        (λ s.
          AtMost_more (suc m + n) (m + suc n) _ (AtMost-both (suc m) n (ask f) (g s) h (k s))
            (omega arith))
        (AtMost-both m (suc n) (f r) (ask g) (h r) k))

module _ {A C : Type 0} where
  -- A task that is cancelled at its call.
  AtMost_by_force :
      (n : ℕ) (was_cancelled : Bool) (end : Bool → Result A → Result C) (f : Reply → Process A)
      → AtMost (suc n) (ask f)
      → AtMost n (settled (f (broken worker_cancelled)) >>= λ a. finished (end was_cancelled a))
  AtMost_by_force n was_cancelled end f h =
      AtMost_more (n + 0) n _
        (AtMost->>= n 0 (settled (f (broken worker_cancelled)))
          (λ a. finished (end was_cancelled a))
          (AtMost-settled n (f (broken worker_cancelled)) (h (broken worker_cancelled))) (λ a. tt))
        (omega arith)

  AtMost-alone :
      (n : ℕ) (failed : Bool) (end : Bool → Result A → Result C) (p : Process A)
      → AtMost n p
      → AtMost n (alone failed end p)
  unfolding alone
  AtMost-alone n failed end (finished a) h = tt
  AtMost-alone n failed end (session w k) h = λ db. AtMost-alone n failed end (k db) (h db)
  AtMost-alone zero failed end (ask k) h = elim h [ ]
  AtMost-alone (suc n) true end (ask k) h =
      AtMost_more n (suc n) _ (AtMost_by_force n false end k h) (omega arith)
  AtMost-alone (suc n) false end (ask k) h = λ r.
      AtMost-turn n r _ _ _ (λ s. AtMost-alone n false end (k s) (h s))
        (λ s. AtMost-alone n false end (k s) (h s)) (AtMost_by_force n true end k h)

module _ {A B : Type 0} where
  stopped :
      (m n : ℕ) (f : Reply → Process A) (g : Reply → Process B)
      → AtMost (suc m) (ask f)
      → AtMost (suc n) (ask g)
      → AtMost (m + suc n) (
          both (f (broken worker_cancelled)) (g (broken worker_cancelled)) >>= λ ends.
          finished (outcome true ends.0 ends.1))
  stopped m n f g h k =
      AtMost_more (m + n + 0) (m + suc n) _
        (AtMost->>= (m + n) 0 (both (f (broken worker_cancelled)) (g (broken worker_cancelled)))
          (λ ends. finished (outcome true ends.0 ends.1))
          (AtMost-both m n _ _ (h (broken worker_cancelled)) (k (broken worker_cancelled)))
          (λ _. tt))
        (omega arith)

  pub AtMost-group :
      (m n : ℕ) (p : Process A) (q : Process B)
      → AtMost m p
      → AtMost n q
      → AtMost (m + n) (group p q)
  unfolding group
  AtMost-group m n (finished a) q h k =
      AtMost_more n (m + n) _ (AtMost-alone n (has_failed a) _ q k) (omega arith)
  AtMost-group m n (session w f) q h k = λ db. AtMost-group m n (f db) q (h db) k
  AtMost-group m n (ask f) (finished b) h k =
      AtMost_more m (m + n) _ (AtMost-alone m (has_failed b) _ (ask f) h) (omega arith)
  AtMost-group m n (ask f) (session w g) h k = λ db. AtMost-group m n (ask f) (g db) h (k db)
  AtMost-group m zero (ask f) (ask g) h k = elim k [ ]
  AtMost-group zero (suc n) (ask f) (ask g) h k = elim h [ ]
  AtMost-group (suc m) (suc n) (ask f) (ask g) h k = rw (shift m (suc n)) (λ r.
      AtMost-turn (m + suc n) r _ _ _ (λ s. AtMost-group m (suc n) (f s) (ask g) (h s) k)
        (λ s.
          AtMost_more (suc m + n) (m + suc n) _ (AtMost-group (suc m) n (ask f) (g s) h (k s))
            (omega arith))
        (stopped m n f g h k))
