-- ===== src/Execution/Executor/Ends.antt =====
-- `execute` ends: every round spends an attempt, excludes one more endpoint, or is one of the three
-- waits.
use mathlib.Core.Path.{subst}
use durallm.Execution.Deadline.{remaining_ms, is_expired}
use durallm.Common.{
  ℕ, zero, suc, ◌+◌, ◌-◌, ◌*◌, ◌≤◌, ◌<◌, ◌≡◌, ap, inl, inr, Bool, true, false, not, ◌&&◌, Option,
  none, some, String, List, [], ◌∷◌, ltb, length, string_eq, arith, count_by, count_by-le,
  count_by-lt, count_by-le-length, Among, Bool-cases, if_split,
}
use durallm.Classifier.Model.{Delay}
use durallm.Routing.Selection.{
  Endpoint, has_id, select_candidate, select_candidate-Selects, Selects,
}
use durallm.Execution.Attempts
use durallm.Execution.Executor.Model
use durallm.Execution.Executor.Model.{
  Setup, Turn, Progress, Flow, goes_on, continues, responds, raises, ◌>>=◌, emit, emit_if, emit_all,
  exclude, record_attempt, Call,
}
use durallm.Execution.Executor.Ensures.{EndsIn, EndsIn-map}
use durallm.Execution.Executor.Spends.{levels, Spends, Grows, Spends-refl}
use durallm.Execution.Executor.Rollover
use durallm.Execution.Executor.Loop
use durallm.Execution.Executor.Loop.{Outcome, returned, failed, unfinished, execute, goes_round}
use durallm.Execution.Executor.Closer.{Excludes, try_endpoint-Closer}

-- The endpoint is not excluded.
abbrev is_left : List String → Endpoint → Bool
is_left excluded ep = not (has_id ep.id excluded)

abbrev left : List Endpoint → List String → ℕ
left endpoints excluded = count_by (is_left excluded) endpoints

-- A bound on the rounds that remain.
abbrev pub rounds_left : List Endpoint → Progress → ℕ
rounds_left endpoints s =
    (s.ledger.policy.max_total_attempts - s.ledger.total_attempts)
    + left endpoints s.excluded_endpoints
    + (3 - s.rate_limit_waits) * suc (length endpoints)

module _ (endpoints : List Endpoint) (s s' : Progress) where
  left-le :
      (g : Grows s.excluded_endpoints s'.excluded_endpoints)
      → left endpoints s'.excluded_endpoints ≤ left endpoints s.excluded_endpoints
  left-le g =
      count_by-le (is_left s.excluded_endpoints) (is_left s'.excluded_endpoints) endpoints
        (λ ep h. ground (arith, g ep.id))

  left-lt :
      (ep : Endpoint)
      → Among ep endpoints
      → has_id ep.id s.excluded_endpoints ≡ false
      → has_id ep.id s'.excluded_endpoints ≡ true
      → Grows s.excluded_endpoints s'.excluded_endpoints
      → left endpoints s'.excluded_endpoints < left endpoints s.excluded_endpoints
  left-lt ep m was now g =
      count_by-lt (is_left s.excluded_endpoints) (is_left s'.excluded_endpoints) ep endpoints
        (λ e h. ground (arith, g e.id)) m (ground arith) (ground arith)

  Spends-rounds_left :
      Spends 1 s s'
      → s.ledger.total_attempts < s.ledger.policy.max_total_attempts
      → rounds_left endpoints s' < rounds_left endpoints s
  Spends-rounds_left h room =
      let waits = ap (λ w. (3 - w) * suc (length endpoints)) h.waits in
      omega (arith, left-le h.grows)

  Excludes-rounds_left :
      (ep : Endpoint)
      → Excludes ep (levels s) (levels s')
      → Among ep endpoints
      → has_id ep.id s.excluded_endpoints ≡ false
      → rounds_left endpoints s' < rounds_left endpoints s
  Excludes-rounds_left ep h m was =
      let waits = ap (λ w. (3 - w) * suc (length endpoints)) h.spends.waits in
      let same_limit = h.spends.max_total in
      let same_total = h.spends.attempts in omega (arith, left-lt ep m was h.out h.spends.grows)

wait_step : (w n : ℕ) → w < 3 → (3 - (w + 1)) * n + n ≡ (3 - w) * n
wait_step zero n h = omega arith
wait_step (suc zero) n h = omega arith
wait_step (suc (suc zero)) n h = omega arith
wait_step (suc (suc (suc w))) n h = absurd (omega arith)

-- What a round ensures: one round less is left after it, and the attempts stay within the limit.
abbrev Less : List Endpoint → Progress → Progress → Type 0
Less endpoints s s' =
    (rounds_left endpoints s' < rounds_left endpoints s)
    × (s'.ledger.policy.max_total_attempts ≡ s.ledger.policy.max_total_attempts)
    × (s'.ledger.total_attempts ≤ s.ledger.policy.max_total_attempts)

abbrev Within : Progress → Progress → Type 0
Within s s' = s'.ledger.total_attempts ≤ s.ledger.policy.max_total_attempts

module _ (setup : Setup) (turn : Turn) (s : Progress)
    (room : s.ledger.total_attempts < s.ledger.policy.max_total_attempts) where
  roll_over-Less :
      (eps : List String) (delays : List Delay) (remaining : ℕ)
      → s.rate_limit_waits < 3
      → Less setup.endpoints s (Rollover.roll_over setup (eps, delays) remaining s)
  unfolding Rollover.roll_over Attempts.reset_for_rate_limit_retry
  roll_over-Less eps delays remaining few =
      let bound =
        count_by-le-length (is_left (Rollover.readmit eps s.excluded_endpoints)) setup.endpoints in
      let waits = wait_step s.rate_limit_waits (suc (length setup.endpoints)) few in
      (ground arith, ground arith, omega arith)

  with_candidate-Less :
      (o : Option Endpoint)
      → Selects turn.view s.excluded_endpoints setup.endpoints o
      → EndsIn (Less setup.endpoints s) (Within s) (Loop.with_candidate setup turn s o)
  unfolding Rollover.without_candidate
  with_candidate-Less none found =
      let limited = Rollover.rate_limited s.excluded_endpoints s.attempts ([], []) in
      let remaining = remaining_ms setup.deadline turn.wait_time in
      if_split (EndsIn (Less setup.endpoints s) (Within s))
        (not (Rollover.is_empty limited.0)
          && ltb s.rate_limit_waits Rollover.max_rate_limit_waits
          && ltb 10000 remaining)
        (λ waits. roll_over-Less limited.0 limited.1 remaining (ground arith))
        (λ none_left. omega arith)
  with_candidate-Less (some ep) (m, ok) =
      EndsIn-map (Loop.try_endpoint setup turn ep s)
        (λ s' h. elim h [
          | inl ex ↦ (
            Excludes-rounds_left setup.endpoints s s' ep ex m ok.not_excluded,
            ex.spends.max_total,
            (let same = ex.spends.attempts in omega arith),
          )
          | inr spent ↦ (
            Spends-rounds_left setup.endpoints s s' spent room,
            spent.max_total,
            (let one = spent.attempts in omega arith),
          )
        ])
        (λ s' h. elim h [
          | inl unspent ↦ let same = unspent.attempts in omega arith
          | inr spent ↦ let one = spent.attempts in omega arith
        ])
        (try_endpoint-Closer setup turn ep s s (Spends-refl s))

-- A round that the test of the loop lets go leaves one round less, within the limit of attempts.
round-Less :
    (setup : Setup) (turn : Turn) (s : Progress)
    → goes_round setup turn s ≡ true
    → EndsIn (Less setup.endpoints s) (Within s) (Loop.round setup turn s)
unfolding Loop.round goes_round
round-Less setup turn s h =
    let room : s.ledger.total_attempts < s.ledger.policy.max_total_attempts = ground arith in
    elim (Bool-cases (is_expired setup.deadline turn.check_time)) [
      | inl late ↦ rw (late, Loop.check_deadline) (omega arith)
      | inr early ↦
          rw (early, Loop.check_deadline)
            (with_candidate-Less setup turn s room
              (select_candidate setup.strategy setup.endpoints turn.view s.excluded_endpoints)
              (select_candidate-Selects setup.strategy setup.endpoints turn.view
                s.excluded_endpoints))
    ]

-- `execute` has returned or raised, within this many attempts.
pub EndsWithin : ℕ → Outcome → Type 0
EndsWithin limit (returned s) = s.ledger.total_attempts ≤ limit
EndsWithin limit (failed e s) = s.ledger.total_attempts ≤ limit
EndsWithin limit (unfinished s) = ⊥

after_round-EndsWithin :
    (endpoints : List Endpoint) (s : Progress) (rest : Progress → Outcome) (m : Model.End)
    → EndsIn (Less endpoints s) (Within s) m
    → ((s' : Progress)
        → Less endpoints s s'
        → EndsWithin s.ledger.policy.max_total_attempts (rest s'))
    → EndsWithin s.ledger.policy.max_total_attempts (Loop.after_round rest m)
unfolding EndsWithin
after_round-EndsWithin endpoints s rest (goes_on none_left) h k = absurd none_left
after_round-EndsWithin endpoints s rest (continues s') h k = k s' h
after_round-EndsWithin endpoints s rest (responds s') h k = h
after_round-EndsWithin endpoints s rest (raises e s') h k = h

-- Whatever the clock shows and the router, the components and the providers answer, `execute` comes
-- to its end, by a response or an error, after at most `rounds_left` further rounds: the attempts
-- that the limit leaves, one for each endpoint of the pool that is not excluded, and the size of the
-- pool plus one for each wait that is left of the three. Its attempts stay within the limit.
pub execute-EndsWithin :
    (setup : Setup) (turns : List Turn) (s : Progress)
    → s.ledger.total_attempts ≤ s.ledger.policy.max_total_attempts
    → rounds_left setup.endpoints s < length turns
    → EndsWithin s.ledger.policy.max_total_attempts (execute setup turns s)
unfolding execute EndsWithin
execute-EndsWithin setup [] s w h = absurd (omega arith)
execute-EndsWithin setup (turn ∷ turns) s w h = elim (Bool-cases (goes_round setup turn s)) [
  | inr stops ↦ rw (stops, execute) w
  | inl goes ↦
      rw (goes, execute)
        (after_round-EndsWithin setup.endpoints s (execute setup turns) (Loop.round setup turn s)
          (round-Less setup turn s goes)
          (λ s' (less, same, within).
            subst (λ n. EndsWithin n (execute setup turns s')) same
              (execute-EndsWithin setup turns s' (omega arith) (omega arith))))
]
