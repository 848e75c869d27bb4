-- ===== src/Routing/Budget.antt =====
-- durallm/routing/budget.py: reservations against the budget of a scope. Amounts are natural numbers
-- of the smallest unit of money, where the source has floats and a tolerance of 1e-12; the ValueErrors
-- on negative amounts do not arise.
use mathlib.Core.Path.{subst}
use durallm.Common.{
  ℕ, ◌+◌, ◌-◌, ◌≤◌, ◌≡◌, inl, inr, false, Option, none, some, String, List, [], ◌∷◌, ltb,
  if◌then◌else◌, ◌==◌, string_eq, eq_iff, arith, Bool-cases, Option-cases, if_split, max,
}
use native.Mathlib.Nat.{le_trans, le-max_left, le-max_right}
use durallm.Common.Dict
use durallm.Common.Dict.{Dict}

pub record BudgetReservation : Type 0 where
  pub reservation_id : String
  pub scope : String
  pub amount_usd : ℕ
  pub limit_usd : ℕ

pub record BudgetReservationStore : Type 0 where
  pub reserved : Dict String BudgetReservation
  pub spent : Dict String ℕ

-- `sum(item.amount_usd for item in self._reserved.values() if item.scope == scope)`
unfoldable pub reserved_of : String → Dict String BudgetReservation → ℕ
reserved_of scope [] = 0
reserved_of scope ((k, item) ∷ items) =
    (if item.scope == scope then item.amount_usd else 0) + reserved_of scope items

-- `self._spent.get(scope, 0.0)`
abbrev pub amount : Option ℕ → ℕ
amount none = 0
amount (some n) = n

unfoldable pub spent_of : String → BudgetReservationStore → ℕ
spent_of scope s = amount (Dict.lookup scope s.spent)

unfoldable pub reserve :
    String
    → String
    → ℕ
    → ℕ
    → BudgetReservationStore
    → Option BudgetReservation × BudgetReservationStore
unfolding reserved_of spent_of
reserve id scope amount_usd limit_usd s = elim (Dict.lookup id s.reserved) [
  | some existing ↦ (some existing, s)
  | none ↦
      let reservation : BudgetReservation = record {
        reservation_id = id;
        scope = scope;
        amount_usd = amount_usd;
        limit_usd = limit_usd;
      } in
      if ltb limit_usd (spent_of scope s + reserved_of scope s.reserved + amount_usd)
      then (none, s)
      else (some reservation, record s { reserved = Dict.insert id reservation s.reserved })
]

unfoldable pub release : String → BudgetReservationStore → BudgetReservationStore
release id s = record s { reserved = Dict.remove id s.reserved }

unfoldable pub settle : String → ℕ → BudgetReservationStore → BudgetReservationStore
unfolding spent_of
settle id actual_cost_usd s = elim (Dict.lookup id s.reserved) [
  | none ↦ s
  | some reservation ↦ record {
    reserved = Dict.remove id s.reserved;
    spent = Dict.insert reservation.scope (spent_of reservation.scope s + actual_cost_usd) s.spent;
  }
]

unfoldable pub remaining : String → ℕ → BudgetReservationStore → ℕ
unfolding reserved_of spent_of
remaining scope limit_usd s = limit_usd - spent_of scope s - reserved_of scope s.reserved

abbrev pub reset : BudgetReservationStore → BudgetReservationStore
reset s = record { reserved = []; spent = [] }

-- What a scope has spent and set aside.
abbrev pub committed_to : String → BudgetReservationStore → ℕ
committed_to scope s = spent_of scope s + reserved_of scope s.reserved

pub data BudgetOp : Type 0 where
  take : String → String → ℕ → ℕ → BudgetOp
  give_back : String → BudgetOp
  pay : String → ℕ → BudgetOp

-- One call; each reservation brings the limit that it is made under.
unfoldable pub step : BudgetOp → BudgetReservationStore → BudgetReservationStore
step (take id scope n limit) s = (reserve id scope n limit s).1
step (give_back id) s = release id s
step (pay id cost) s = settle id cost s

unfoldable pub run : BudgetReservationStore → List BudgetOp → BudgetReservationStore
run s [] = s
run s (op ∷ ops) = run (step op s) ops

-- By how much a payment exceeds its reservation, if that is one of the scope.
abbrev excess_of : String → ℕ → Option BudgetReservation → ℕ
excess_of at cost none = 0
excess_of at cost (some item) = if item.scope == at then cost - item.amount_usd else 0

abbrev excess : String → BudgetOp → BudgetReservationStore → ℕ
excess at (pay id cost) s = excess_of at cost (Dict.lookup id s.reserved)
excess at (take id scope n limit) s = 0
excess at (give_back id) s = 0

-- By how much the payments of a run exceed their reservations together.
abbrev pub overspend : String → BudgetReservationStore → List BudgetOp → ℕ
overspend at s [] = 0
overspend at s (op ∷ ops) = excess at op s + overspend at (step op s) ops

-- The largest limit that the reservations of a run name for the scope
abbrev limit_for : String → BudgetOp → ℕ
limit_for at (take id scope n limit) = if scope == at then limit else 0
limit_for at (give_back id) = 0
limit_for at (pay id cost) = 0

abbrev pub largest_limit : String → List BudgetOp → ℕ
largest_limit at [] = 0
largest_limit at (op ∷ ops) = max (limit_for at op) (largest_limit at ops)

reserved_of-insert :
    (id scope : String) (item : BudgetReservation) (d : Dict String BudgetReservation)
    → Dict.lookup id d ≡ none
    → reserved_of scope (Dict.insert id item d)
      ≡ reserved_of scope d + (if item.scope == scope then item.amount_usd else 0)
unfolding reserved_of Dict.insert Dict.lookup
reserved_of-insert id scope item [] h = ground arith
reserved_of-insert id scope item ((j, w) ∷ d) h = ground (arith, reserved_of-insert id scope item d)

reserved_of-remove :
    (id scope : String) (d : Dict String BudgetReservation)
    → reserved_of scope (Dict.remove id d) ≤ reserved_of scope d
unfolding reserved_of Dict.remove
reserved_of-remove id scope [] = omega arith
reserved_of-remove id scope ((j, w) ∷ d) = ground (arith, reserved_of-remove id scope d)

abbrev share : String → BudgetReservation → ℕ
share scope item = if item.scope == scope then item.amount_usd else 0

reserved_of-remove_found :
    (id scope : String) (item : BudgetReservation) (d : Dict String BudgetReservation)
    → Dict.lookup id d ≡ some item
    → reserved_of scope (Dict.remove id d) + share scope item ≤ reserved_of scope d
unfolding reserved_of Dict.remove Dict.lookup
reserved_of-remove_found id scope item [] h = cc
reserved_of-remove_found id scope item ((j, w) ∷ d) h = elim (Bool-cases (j == id)) [
  | inl same ↦
      let e : w ≡ item = ground arith in
      subst
        (λ x.
          reserved_of scope (Dict.remove id ((j, w) ∷ d)) + share scope x
          ≤ share scope w + reserved_of scope d)
        e (ground (arith, reserved_of-remove id scope d))
  | inr other ↦ ground (arith, reserved_of-remove_found id scope item d)
]

new_fits :
    (id at : String) (item : BudgetReservation) (s : BudgetReservationStore) (limit bound : ℕ)
    → Dict.lookup id s.reserved ≡ none
    → committed_to at s ≤ bound
    → (if item.scope == at then limit else 0) ≤ bound
    → ltb limit (spent_of item.scope s + reserved_of item.scope s.reserved + item.amount_usd)
      ≡ false
    → amount (Dict.lookup at s.spent) + reserved_of at (Dict.insert id item s.reserved) ≤ bound
unfolding spent_of
new_fits id at item s limit bound absent h under fits = elim (Bool-cases (item.scope == at)) [
  | inl same ↦
      let e : item.scope ≡ at = (eq_iff item.scope at).0 same in
      let fits' : ltb limit (spent_of at s + reserved_of at s.reserved + item.amount_usd) ≡ false =
        subst (λ x. ltb limit (spent_of x s + reserved_of x s.reserved + item.amount_usd) ≡ false) e
          fits in
      ground (arith, reserved_of-insert id at item s.reserved absent)
  | inr other ↦ ground (arith, reserved_of-insert id at item s.reserved absent)
]

-- A reservation keeps what its scope has spent and set aside within the limit it is made under.
reserve_fits :
    (id scope at : String) (n limit bound : ℕ) (s : BudgetReservationStore)
    → committed_to at s ≤ bound
    → (if scope == at then limit else 0) ≤ bound
    → committed_to at (reserve id scope n limit s).1 ≤ bound
unfolding reserve spent_of
reserve_fits id scope at n limit bound s h under = elim (Option-cases (Dict.lookup id s.reserved)) [
  | inr (item, found) ↦ rw (found, reserve) h
  | inl absent ↦
      let item : BudgetReservation = record {
        reservation_id = id;
        scope = scope;
        amount_usd = n;
        limit_usd = limit;
      } in
      rw (absent, reserve)
        (if_split
          (λ (p : Option BudgetReservation × BudgetReservationStore). committed_to at p.1 ≤ bound)
          (ltb limit (spent_of scope s + reserved_of scope s.reserved + n)) (λ over. h)
          (λ fits. new_fits id at item s limit bound absent h under fits))
]

release_le :
    (id at : String) (s : BudgetReservationStore)
    → committed_to at (release id s) ≤ committed_to at s
unfolding release spent_of
release_le id at s = omega (arith, reserved_of-remove id at s.reserved)

settle_le :
    (id at : String) (cost : ℕ) (s : BudgetReservationStore)
    → committed_to at (settle id cost s)
      ≤ committed_to at s + excess_of at cost (Dict.lookup id s.reserved)
unfolding settle spent_of
settle_le id at cost s = elim (Option-cases (Dict.lookup id s.reserved)) [
  | inl absent ↦ rw (absent, settle) (omega arith)
  | inr (item, found) ↦
      rw (found, settle)
        (rw Dict.lookup-insert (
          ground
            (arith, eq_iff item.scope at, reserved_of-remove_found id at item s.reserved found)))
]

step_le :
    (at : String) (bound : ℕ) (op : BudgetOp) (s : BudgetReservationStore)
    → committed_to at s ≤ bound
    → limit_for at op ≤ bound
    → committed_to at (step op s) ≤ bound + excess at op s
unfolding step
step_le at bound (take id scope n limit) s h under =
    let fits = reserve_fits id scope at n limit bound s h under in omega arith
step_le at bound (give_back id) s h under = omega (arith, release_le id at s)
step_le at bound (pay id cost) s h under = omega (arith, settle_le id at cost s)

run_within :
    (at : String) (bound : ℕ) (s : BudgetReservationStore) (ops : List BudgetOp)
    → committed_to at s ≤ bound
    → largest_limit at ops ≤ bound
    → committed_to at (run s ops) ≤ bound + overspend at s ops
unfolding run
run_within at bound s [] h under = omega arith
run_within at bound s (op ∷ ops) h under =
    let first = le_trans (le-max_left (limit_for at op) (largest_limit at ops)) under in
    let others = le_trans (le-max_right (limit_for at op) (largest_limit at ops)) under in
    let more = bound + excess at op s in
    let rest = run_within at more (step op s) ops (step_le at bound op s h first) (omega arith) in
    omega arith

-- In any sequence of reservations, releases and payments, whatever they cost, what a scope has spent
-- and set aside stays at most at the largest of the limits that its reservations were made under, or
-- at what it had committed before if that is more, plus the sum of what its payments cost beyond
-- their reservations. In particular payments that keep to their reservations never break the limit.
pub run-le-limit :
    (at : String) (s : BudgetReservationStore) (ops : List BudgetOp)
    → committed_to at (run s ops)
      ≤ max (committed_to at s) (largest_limit at ops) + overspend at s ops
run-le-limit at s ops =
    run_within at (max (committed_to at s) (largest_limit at ops)) s ops
      (le-max_left (committed_to at s) (largest_limit at ops))
      (le-max_right (committed_to at s) (largest_limit at ops))
