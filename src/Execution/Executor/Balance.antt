-- ===== src/Execution/Executor/Balance.antt =====
-- The state of the books of `execute`, call by call.
use durallm.Common.{
  ℕ, ◌+◌, ◌≡◌, refl, Bool, true, false, Option, none, some, String, List, ◌∷◌, All, if◌then◌else◌,
  string_eq, beq_refl,
}
use durallm.Classifier.Model.{FailureClassification}
use durallm.Execution.Executor.Model
use durallm.Execution.Executor.Model.{Progress, Call, push_all, AttemptStatus}
use durallm.Execution.Executor.Kinds.{Open, leaks, replay, Neutral, replay-post, replay-push_all}

abbrev pub books : Option String → Option String → Option String → ℕ → Open
books reservation permission attempt finished = record {
  reservation = reservation;
  permission = permission;
  attempt = attempt;
  finished = finished;
}

-- The calls are in order, with these under way, and so many attempts were finished.
abbrev pub Balance : Option String → Option String → Option String → ℕ → List Call → Type 0
Balance reservation permission attempt finished calls =
    replay calls ≡ some (books reservation permission attempt finished)

-- The ledger counts the attempts that were finished.
abbrev pub IsBalanced : Option String → Option String → Option String → Progress → Type 0
IsBalanced b p a s = Balance b p a s.ledger.total_attempts s.calls

-- Nothing is under way.
abbrev pub Settled : Progress → Type 0
Settled = IsBalanced none none none

module _ (b p a : Option String) (n : ℕ) where
  pub push_all-Balance :
      (cs calls : List Call)
      → All Neutral cs
      → Balance b p a n calls
      → Balance b p a n (push_all cs calls)
  push_all-Balance cs calls free h = replay-push_all cs calls (books b p a n) free h

module _ (id : String) (n : ℕ) (calls : List Call) where
  pub settle-Balance :
      (limited : Bool) (amount : ℕ) (p : Option String)
      → Balance (if limited then some id else none) p (some id) n calls
      → Balance none p (some id) n (if limited then Model.settles id amount ∷ calls else calls)
  settle-Balance true amount p h =
      replay-post _ calls (books (some id) p (some id) n) _ h (rw (beq_refl id) refl)
  settle-Balance false amount p h = h

  pub release-Balance :
      (limited : Bool)
      → Balance (if limited then some id else none) none none n calls
      → Balance none none none n (if limited then Model.releases id ∷ calls else calls)
  release-Balance true h =
      replay-post _ calls (books (some id) none none n) _ h (rw (beq_refl id) refl)
  release-Balance false h = h

  -- The last call of an attempt: of one that was reported, and of one that was not.
  pub close-Balance :
      (status : AttemptStatus)
      → leaks status ≡ false
      → Balance none none (some id) n calls
      → Balance none none none (n + 1) (Model.finishes id status ∷ calls)
  close-Balance status e h =
      replay-post _ calls (books none none (some id) n) _ h (rw (beq_refl id) (rw e refl))

  pub leak-Balance :
      (status : AttemptStatus) (key : String)
      → leaks status ≡ true
      → Balance none (some key) (some id) n calls
      → Balance none none none (n + 1) (Model.finishes id status ∷ calls)
  leak-Balance status key e h =
      replay-post _ calls (books none (some key) (some id) n) _ h (rw (beq_refl id) (rw e refl))

  pub take-Balance :
      (amount : ℕ)
      → Balance none none none n calls
      → Balance (some id) none none n (Model.reserves id amount ∷ calls)
  take-Balance amount h = replay-post _ calls (books none none none n) _ h refl

module _ (b : Option String) (key id : String) (n : ℕ) (calls : List Call) where
  -- The breaker is told.
  pub failure-Balance :
      (c : FailureClassification)
      → Balance b (some key) (some id) n calls
      → Balance b none (some id) n (Model.breaker_failure key c ∷ calls)
  failure-Balance c h =
      replay-post _ calls (books b (some key) (some id) n) _ h (rw (beq_refl key) refl)

  pub success-Balance :
      Balance b (some key) (some id) n calls
      → Balance b none (some id) n (Model.breaker_success key ∷ calls)
  success-Balance h =
      replay-post _ calls (books b (some key) (some id) n) _ h (rw (beq_refl key) refl)

  pub acquire-Balance :
      Balance b none none n calls
      → Balance b (some key) none n (Model.acquires_permission key ∷ calls)
  acquire-Balance h = replay-post _ calls (books b none none n) _ h refl

  -- The attempt is stored before its bytes are sent.
  pub dispatch-Balance :
      (endpoint : String)
      → Balance b (some key) none n calls
      → Balance b (some key) (some id) n (Model.dispatches endpoint ∷ Model.prepares id ∷ calls)
  dispatch-Balance endpoint h =
      replay-post _ (Model.prepares id ∷ calls) (books b (some key) (some id) n) _
        (replay-post _ calls (books b (some key) none n) _ h refl) refl
