-- ===== src/Breaker/Circuit/Trail.antt =====
-- The events of a breaker account for its state.
use durallm.Common.{
  ℕ, ◌≡◌, refl, sym, ◌∙◌, Bool, true, false, List, [], ◌∷◌, ◌++◌, Option, none, some, if_both, ltb,
}
use mathlib.Core.Path.{subst}
use durallm.Breaker.Metrics
use durallm.Breaker.State.{
  CircuitBreakerState, closed, opened, half_open, Reason, StateTransitionEvent, CircuitBreaker,
  transition_event, emit_transition,
}
use durallm.Breaker.Circuit.{
  Readings, Permission, check_by, check_and_update_state, admit, acquire_permission, trip_reason,
  trip, record_outcome, evaluate_closed_thresholds, success_by, record_success, failure_by,
  record_failure,
}
use durallm.Breaker.Calls.{Traffic, observe, acquire, success, failure, step_traffic}

-- The events lead from `s` to `t`, each from where the one before it led, and each along `R`.
abbrev pub Trail :
    (CircuitBreakerState → CircuitBreakerState → Type 0)
    → CircuitBreakerState
    → List StateTransitionEvent
    → CircuitBreakerState
    → Type 0
Trail R s [] t = s ≡ t
Trail R s (e ∷ es) t = (e.from_state ≡ s) × R e.from_state e.to_state × Trail R e.to_state es t

pub Trail-append :
    (R : CircuitBreakerState → CircuitBreakerState → Type 0) (s t : CircuitBreakerState)
    (es : List StateTransitionEvent) (e : StateTransitionEvent)
    → Trail R s es t
    → e.from_state ≡ t
    → R e.from_state e.to_state
    → Trail R s (es ++ e ∷ []) e.to_state
Trail-append R s t [] e h f r = (f ∙ sym h, r, refl)
Trail-append R s t (x ∷ es) e h f r = (h.0, h.1, Trail-append R x.to_state t es e h.2 f r)

-- The events of a breaker lead from CLOSED to its state.
abbrev pub Accounted :
    (CircuitBreakerState → CircuitBreakerState → Type 0) → CircuitBreaker → Type 0
Accounted R b = Trail R closed b.events b.state

module _ (R : CircuitBreakerState → CircuitBreakerState → Type 0) where
  -- `to` is the state already, and the events lead to `from`.
  pub emit-Accounted :
      (from to : CircuitBreakerState) (now : ℕ) (why : Reason) (b : CircuitBreaker)
      → Trail R closed b.events from
      → R from to
      → to ≡ b.state
      → Accounted R (emit_transition now from to why b)
  unfolding emit_transition
  emit-Accounted from to now why b h r e =
      let event = transition_event now from to why b in
      subst (λ t. Trail R closed (b.events ++ event ∷ []) t) e
        (Trail-append R closed from b.events event h refl r)

  module _ (tripping : R closed opened) (wait : R opened half_open) (relapse : R half_open opened)
      (recover : R half_open closed) where
    at_state :
        (st : CircuitBreakerState) (b : CircuitBreaker)
        → st ≡ b.state
        → Accounted R b
        → Trail R closed b.events st
    at_state st b e h = subst (λ t. Trail R closed b.events t) (sym e) h

    check_by-Accounted :
        (st : CircuitBreakerState) (r : Readings) (b : CircuitBreaker)
        → st ≡ b.state
        → Accounted R b
        → Accounted R (check_by st r b)
    unfolding check_by
    check_by-Accounted closed r b e h =
        if_both (Accounted R) _
          (emit-Accounted closed opened _ _ _ (at_state closed b e h) tripping refl) h
    check_by-Accounted opened r b e h =
        if_both (Accounted R) _
          (emit-Accounted opened half_open _ _ _ (at_state opened b e h) wait refl) h
    check_by-Accounted half_open r b e h =
        if_both (Accounted R) _
          (emit-Accounted half_open opened _ _ _ (at_state half_open b e h) relapse refl) h
    check_by-Accounted _ r b e h = h

    check-Accounted :
        (r : Readings) (b : CircuitBreaker)
        → Accounted R b
        → Accounted R (check_and_update_state r b)
    unfolding check_and_update_state
    check-Accounted r b h = check_by-Accounted b.state r b refl h

    admit-Accounted :
        (st : CircuitBreakerState) (now : ℕ) (b : CircuitBreaker)
        → Accounted R b
        → Accounted R (admit st now b).1
    unfolding admit
    admit-Accounted half_open now b h =
        if_both (λ (p : Permission × CircuitBreaker). Accounted R p.1) _ h h
    admit-Accounted _ now b h = h

    trip-Accounted :
        (r : Readings) (why : Option Reason) (b : CircuitBreaker)
        → closed ≡ b.state
        → Accounted R b
        → Accounted R (trip r why b)
    unfolding trip
    trip-Accounted r none b e h = h
    trip-Accounted r (some why) b e h =
        emit-Accounted closed opened r.emit why _ (at_state closed b e h) tripping refl

    evaluate-Accounted :
        (r : Readings) (b : CircuitBreaker)
        → closed ≡ b.state
        → Accounted R b
        → Accounted R (evaluate_closed_thresholds r b)
    unfolding evaluate_closed_thresholds
    evaluate-Accounted r b e h =
        let (snap, m) = Metrics.snapshot r.now b.metrics in
        let b' : CircuitBreaker = record b { metrics = m } in
        if_both (Accounted R) (ltb snap.total_calls b.config.minimum_number_of_calls) {a = b'}
          {b = trip r (trip_reason snap b') b'} h (trip-Accounted r (trip_reason snap b') b' e h)

    success_by-Accounted :
        (st : CircuitBreakerState) (ms : ℕ) (r : Readings) (b : CircuitBreaker)
        → st ≡ b.state
        → Accounted R b
        → Accounted R (success_by st ms r b)
    unfolding success_by
    success_by-Accounted closed ms r b e h =
        evaluate-Accounted r (record_outcome true ms true r b) e h
    success_by-Accounted half_open ms r b e h =
        if_both (Accounted R) _
          (emit-Accounted half_open closed _ _ _ (at_state half_open b e h) recover refl) h
    success_by-Accounted _ ms r b e h = h

    failure_by-Accounted :
        (st : CircuitBreakerState) (poisons : Bool) (ms : ℕ) (r : Readings) (b : CircuitBreaker)
        → st ≡ b.state
        → Accounted R b
        → Accounted R (failure_by st poisons ms r b)
    unfolding failure_by
    failure_by-Accounted closed poisons ms r b e h =
        if_both (Accounted R) _ (evaluate-Accounted r (record_outcome false ms poisons r b) e h) h
    failure_by-Accounted half_open poisons ms r b e h =
        if_both (Accounted R) _
          (emit-Accounted half_open opened _ _ _ (at_state half_open b e h) relapse refl) h
    failure_by-Accounted _ poisons ms r b e h = h

    pub step_traffic-Accounted :
        (t : Traffic) (r : Readings) (b : CircuitBreaker)
        → Accounted R b
        → Accounted R (step_traffic t r b)
    unfolding step_traffic acquire_permission record_success record_failure
    step_traffic-Accounted observe r b h = check-Accounted r b h
    step_traffic-Accounted acquire r b h =
        let b' = check_and_update_state r b in
        admit-Accounted b'.state r.now b' (check-Accounted r b h)
    step_traffic-Accounted (success ms) r b h =
        let b' = check_and_update_state r b in
        success_by-Accounted b'.state ms r b' refl (check-Accounted r b h)
    step_traffic-Accounted (failure ms poisons) r b h =
        let b' = check_and_update_state r b in
        failure_by-Accounted b'.state poisons ms r b' refl (check-Accounted r b h)
