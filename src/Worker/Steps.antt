-- ===== src/Worker/Steps.antt =====
-- The run of a worker as a process: sessions on the database, and between them calls of what lies
-- outside, whose answers the environment chooses. Other sessions may be committed before each of
-- its steps. The calls are those of the agents and of the clock.
use coderus.Base.{ℕ, zero, suc, ◌+◌, ◌≤◌, ◌≡◌, String, Option, none, some, arith}
use coderus.Base.Text.{Text}
use coderus.Orchestrator.{Prepared, Published}
use coderus.Store.{Db, Action, Result, return, raise, Failure, other, ℤ}

-- coderus/runner/protocol.py
pub data JobStatus : Type 0 where
  succeeded failed timed_out cancelled : JobStatus

-- The fields of `JobResult` that are read.
pub record JobResult : Type 0 where
  pub status : JobStatus
  pub exit_code : Option ℤ
  pub stdout : Text
  pub stderr : Text

-- What a call comes back with: an exception, nothing, or its value. Of two processes that wait at
-- once, `first` and `second` say which one's call has come back.
pub data Reply : Type 0 where
  broken : Failure → Reply
  fine : Reply
  ran : JobResult → Reply
  used : Option (ℕ × ℕ) → Reply
  text : String → Reply
  sealed : (patch_path tree_sha : String) → Reply
  prepared : Prepared → Reply
  published : Published → Reply
  first second : Reply → Reply

-- `session` has the effect of one session, and what follows it by the database that it found.
pub data Process (A : Type 0) : Type 0 where
  finished : Result A → Process A
  session : (Db → Db) → (Db → Process A) → Process A
  ask : (Reply → Process A) → Process A

module _ {A : Type 0} where
  abbrev pub atomic : Action A → Process A
  atomic m = session (λ db. (m db).1) (λ db. finished (m db).0)

  abbrev pub done : A → Process A
  done a = finished (return a)

  abbrev pub fail_with : Failure → Process A
  fail_with e = finished (raise e)

  -- A handler of every exception, which is given it.
  unfoldable pub rescue : Process A → (Failure → Process A) → Process A
  rescue (finished (return a)) handler = finished (return a)
  rescue (finished (raise e)) handler = handler e
  rescue (session w k) handler = session w (λ db. rescue (k db) handler)
  rescue (ask k) handler = ask (λ r. rescue (k r) handler)

module _ {A B : Type 0} where
  infixl 5 ◌>>=◌ ◌>>◌
  unfoldable pub ◌>>=◌ : Process A → (A → Process B) → Process B
  finished (return a) >>= f = f a
  finished (raise e) >>= f = finished (raise e)
  session w k >>= f = session w (λ db. k db >>= f)
  ask k >>= f = ask (λ r. k r >>= f)

  unfoldable pub ◌>>◌ : Process A → Process B → Process B
  p >> q = p >>= λ _. q

pub shift : (m n : ℕ) → suc m + n ≡ suc (m + n)
shift m n = omega arith

-- What a call gives: an exception, or the value for which the caller waits.
module _ {A : Type 0} where
  abbrev pub value_or_other : Option A → Process A
  value_or_other none = fail_with other
  value_or_other (some a) = done a

  unfoldable pub expect : (Reply → Option A) → Reply → Process A
  expect value (broken e) = fail_with e
  expect value fine = value_or_other (value fine)
  expect value (ran result) = value_or_other (value (ran result))
  expect value (used usage) = value_or_other (value (used usage))
  expect value (text s) = value_or_other (value (text s))
  expect value (sealed s t) = value_or_other (value (sealed s t))
  expect value (prepared p) = value_or_other (value (prepared p))
  expect value (published p) = value_or_other (value (published p))
  expect value (first r) = value_or_other (value (first r))
  expect value (second r) = value_or_other (value (second r))

-- At most so many calls, whatever they answer and whatever the sessions find.
module _ {A : Type 0} where
  abbrev pub AtMost : ℕ → Process A → Type 0
  AtMost n (finished r) = Unit
  AtMost n (session w k) = (db : Db) → AtMost n (k db)
  AtMost zero (ask k) = ⊥
  AtMost (suc n) (ask k) = (r : Reply) → AtMost n (k r)

  pub AtMost_more : (m n : ℕ) (p : Process A) → AtMost m p → m ≤ n → AtMost n p
  AtMost_more m n (finished r) h le = tt
  AtMost_more m n (session w k) h le = λ db. AtMost_more m n (k db) (h db) le
  AtMost_more zero n (ask k) h le = elim h [ ]
  AtMost_more (suc m) zero (ask k) h le = ground arith
  AtMost_more (suc m) (suc n) (ask k) h le = λ r. AtMost_more m n (k r) (h r) (omega (arith, le))

  AtMost-value_or_other : (o : Option A) → AtMost 0 (value_or_other o)
  AtMost-value_or_other none = tt
  AtMost-value_or_other (some a) = tt

  pub AtMost-expect : (value : Reply → Option A) → AtMost 1 (ask (expect value))
  unfolding expect
  AtMost-expect value (broken e) = tt
  AtMost-expect value fine = AtMost-value_or_other (value fine)
  AtMost-expect value (ran result) = AtMost-value_or_other (value (ran result))
  AtMost-expect value (used usage) = AtMost-value_or_other (value (used usage))
  AtMost-expect value (text s) = AtMost-value_or_other (value (text s))
  AtMost-expect value (sealed s t) = AtMost-value_or_other (value (sealed s t))
  AtMost-expect value (prepared p) = AtMost-value_or_other (value (prepared p))
  AtMost-expect value (published p) = AtMost-value_or_other (value (published p))
  AtMost-expect value (first r) = AtMost-value_or_other (value (first r))
  AtMost-expect value (second r) = AtMost-value_or_other (value (second r))

  pub AtMost-rescue :
      (m n : ℕ) (p : Process A) (handler : Failure → Process A)
      → AtMost m p
      → ((e : Failure) → AtMost n (handler e))
      → AtMost (m + n) (rescue p handler)
  unfolding rescue
  AtMost-rescue m n (finished (return a)) handler h k = tt
  AtMost-rescue m n (finished (raise e)) handler h k =
      AtMost_more n (m + n) (handler e) (k e) (omega arith)
  AtMost-rescue m n (session w f) handler h k = λ db. AtMost-rescue m n (f db) handler (h db) k
  AtMost-rescue zero n (ask f) handler h k = elim h [ ]
  AtMost-rescue (suc m) n (ask f) handler h k =
      rw (shift m n) (λ r. AtMost-rescue m n (f r) handler (h r) k)

module _ {A B : Type 0} where
  pub AtMost->>= :
      (m n : ℕ) (p : Process A) (f : A → Process B)
      → AtMost m p
      → ((a : A) → AtMost n (f a))
      → AtMost (m + n) (p >>= f)
  unfolding ◌>>=◌
  AtMost->>= m n (finished (return a)) f h k = AtMost_more n (m + n) (f a) (k a) (omega arith)
  AtMost->>= m n (finished (raise e)) f h k = tt
  AtMost->>= m n (session w g) f h k = λ db. AtMost->>= m n (g db) f (h db) k
  AtMost->>= zero n (ask g) f h k = elim h [ ]
  AtMost->>= (suc m) n (ask g) f h k = rw (shift m n) (λ r. AtMost->>= m n (g r) f (h r) k)

module _ {A B : Type 0} where
  pub AtMost->> :
      (m n : ℕ) (p : Process A) (q : Process B) → AtMost m p → AtMost n q → AtMost (m + n) (p >> q)
  unfolding ◌>>◌
  AtMost->> m n p q h k = AtMost->>= m n p (λ _. q) h (λ _. k)

module _ {A : Type 0} where
  pub AtMost-atomic : (m : Action A) → AtMost 0 (atomic m)
  AtMost-atomic m = λ db. tt

-- Every run of the process from the database ends in what `Post` says, where others may change the
-- database at will before each step.
module _ {A : Type 0} where
  abbrev pub Ends : (Result A → Db → Type 0) → Process A → Db → Type 0
  Ends Post (finished r) db = Post r db
  Ends Post (session w k) db = (now : Db) → Ends Post (k now) (w now)
  Ends Post (ask k) db = (r : Reply) (now : Db) → Ends Post (k r) now

  pub Ends-any : (p : Process A) (db : Db) → Ends (λ r now. Unit) p db
  Ends-any (finished r) db = tt
  Ends-any (session w k) db = λ now. Ends-any (k now) (w now)
  Ends-any (ask k) db = λ r now. Ends-any (k r) now

  pub Ends-rescue :
      (P Q : Result A → Db → Type 0) (p : Process A) (handler : Failure → Process A) (db : Db)
      → Ends P p db
      → ((a : A) (now : Db) → P (return a) now → Q (return a) now)
      → ((e : Failure) (now : Db) → P (raise e) now → Ends Q (handler e) now)
      → Ends Q (rescue p handler) db
  unfolding rescue
  Ends-rescue P Q (finished (return a)) handler db h f g = f a db h
  Ends-rescue P Q (finished (raise e)) handler db h f g = g e db h
  Ends-rescue P Q (session w k) handler db h f g =
      λ now. Ends-rescue P Q (k now) handler (w now) (h now) f g
  Ends-rescue P Q (ask k) handler db h f g =
      λ r now. Ends-rescue P Q (k r) handler now (h r now) f g

module _ {A B : Type 0} where
  pub Ends->>= :
      (P : Result A → Db → Type 0) (Q : Result B → Db → Type 0) (p : Process A) (f : A → Process B)
      (db : Db)
      → Ends P p db
      → ((a : A) (now : Db) → P (return a) now → Ends Q (f a) now)
      → ((e : Failure) (now : Db) → P (raise e) now → Q (raise e) now)
      → Ends Q (p >>= f) db
  unfolding ◌>>=◌
  Ends->>= P Q (finished (return a)) f db h good bad = good a db h
  Ends->>= P Q (finished (raise e)) f db h good bad = bad e db h
  Ends->>= P Q (session w k) f db h good bad =
      λ now. Ends->>= P Q (k now) f (w now) (h now) good bad
  Ends->>= P Q (ask k) f db h good bad = λ r now. Ends->>= P Q (k r) f now (h r now) good bad
