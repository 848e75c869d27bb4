-- ===== src/Breaker/Circuit/Recovery.antt =====
-- How a breaker trips and how it recovers.
use durallm.Common.{
  ℕ, suc, ◌+◌, ◌-◌, ◌*◌, ◌≤◌, ◌<◌, ◌≡◌, refl, ap, ◌∙◌, Bool, true, false, List, [], ◌∷◌, ◌++◌,
  arith, leb, if◌then◌else◌, All, length, ◌||◌, ◌&&◌, count_by, last, length-drop, length-append,
}
use durallm.Breaker.Metrics
use durallm.Breaker.Metrics.{CallOutcome, count_based, outcome, is_failed, is_slow_call, statistics}
use durallm.Breaker.Metrics.Window.{evict-record_call, snapshot-reset}
use durallm.Breaker.State.{closed, opened, half_open, CircuitBreaker, emit_transition}
use durallm.Breaker.Circuit.{
  Readings, check_and_update_state, success_by, record_success, failure_by, record_failure,
  evaluate_closed_thresholds, record_outcome,
}
use durallm.Breaker.Calls.{Traffic, success, step_traffic, run_traffic}

-- The test that trips a CLOSED breaker, on the outcomes of a window.
abbrev pub unhealthy : CircuitBreaker → List CallOutcome → Bool
unhealthy b window =
    leb b.config.minimum_number_of_calls (length window)
    && (leb (b.config.failure_rate_threshold * length window) (count_by is_failed window * 100)
        || leb (b.config.slow_call_rate_threshold * length window)
            (count_by is_slow_call window * 100))

evaluate-state :
    (r : Readings) (b : CircuitBreaker) (x : CallOutcome) (window : List CallOutcome)
    → b.state ≡ closed
    → (Metrics.evict_expired r.now b.metrics).samples ≡ x ∷ window
    → (evaluate_closed_thresholds r b).state ≡ (if unhealthy b (x ∷ window) then opened else closed)
unfolding evaluate_closed_thresholds Metrics.snapshot emit_transition statistics
evaluate-state r b x window h e = ground arith

evaluate-state_nonempty :
    (r : Readings) (b : CircuitBreaker) (window : List CallOutcome)
    → b.state ≡ closed
    → 0 < length window
    → (Metrics.evict_expired r.now b.metrics).samples ≡ window
    → (evaluate_closed_thresholds r b).state ≡ (if unhealthy b window then opened else closed)
evaluate-state_nonempty r b [] h pos e = absurd (omega arith)
evaluate-state_nonempty r b (x ∷ window) h pos e = evaluate-state r b x window h e

last_nonempty :
    (size : ℕ) (ss : List CallOutcome) (o : CallOutcome)
    → 0 < size
    → 0 < length (last size (ss ++ o ∷ []))
last_nonempty size ss o pos =
    let xs = ss ++ o ∷ [] in
    omega (arith, length-drop (length xs - size) xs, length-append ss (o ∷ []))

module _ (b : CircuitBreaker) (ms : ℕ) (r : Readings) where
  -- The window that the thresholds are put to when a call ends.
  abbrev pub window_with : Bool → Bool → List CallOutcome
  window_with won poisons =
      last b.metrics.window_size
        (b.metrics.samples ++ outcome b.metrics.slow_call_duration_ms won ms r.now poisons ∷ [])

  evaluated :
      (won poisons : Bool)
      → b.state ≡ closed
      → b.metrics.window_type ≡ count_based
      → 0 < b.metrics.window_size
      → (evaluate_closed_thresholds r (record_outcome won ms poisons r b)).state
        ≡ (if unhealthy b (window_with won poisons) then opened else closed)
  evaluated won poisons h e pos =
      evaluate-state_nonempty r (record_outcome won ms poisons r b) (window_with won poisons) h
        (last_nonempty b.metrics.window_size b.metrics.samples
          (outcome b.metrics.slow_call_duration_ms won ms r.now poisons) pos)
        (evict-record_call b.metrics won ms r.now poisons e)

  check_idle : b.state ≡ closed → b.has_cluster_store ≡ false → check_and_update_state r b ≡ b
  unfolding check_and_update_state
  check_idle h store = ground arith

  -- A CLOSED breaker with no cluster store and a COUNT_BASED window that is not empty by
  -- configuration. When a call ends in success or in a failure that poisons health, the breaker is
  -- OPEN afterwards exactly if the last `window_size` outcomes, the new one included, are at least
  -- the minimum number and reach the failure or the slow call threshold. A failure that does not
  -- poison health leaves it CLOSED.
  pub trips_exactly :
      b.state ≡ closed
      → b.has_cluster_store ≡ false
      → b.metrics.window_type ≡ count_based
      → 0 < b.metrics.window_size
      → ((record_success ms r b).state
          ≡ (if unhealthy b (window_with true true) then opened else closed))
        × ((record_failure ms true r b).state
            ≡ (if unhealthy b (window_with false true) then opened else closed))
        × ((record_failure ms false r b).state ≡ closed)
  unfolding record_success record_failure
  trips_exactly h store e pos =
      let same = check_idle h store in
      (
        ap (λ b'. (success_by b'.state ms r b').state) same
            ∙ ap (λ st. (success_by st ms r b).state) h
            ∙ evaluated true true h e pos,
        ap (λ b'. (failure_by b'.state true ms r b').state) same
            ∙ ap (λ st. (failure_by st true ms r b).state) h
            ∙ evaluated false true h e pos,
        ap (λ b'. (failure_by b'.state false ms r b').state) same
            ∙ ap (λ st. (failure_by st false ms r b).state) h
            ∙ h,
      )

-- The clock never shows more than `limit`.
abbrev pub Until : ℕ → List (ℕ × Readings) → Type 0
Until limit calls = All (λ (c : ℕ × Readings). c.1.check ≤ limit) calls

-- Successful calls, each with its duration.
abbrev pub successes : List (ℕ × Readings) → List (Traffic × Readings)
successes [] = []
successes ((ms, r) ∷ calls) = (success ms, r) ∷ successes calls

record IsProbing (entered limit needed done : ℕ) (b : CircuitBreaker) : Type 0 where
  probing : b.state ≡ half_open
  entered_then : b.half_open_entered_at ≡ entered
  allows : b.config.max_half_open_duration_ms ≡ limit
  needs : b.config.half_open_max_calls ≡ needed
  has : b.half_open_successes ≡ done

pub record IsRecovered (b : CircuitBreaker) : Type 0 where
  pub is_closed_now : b.state ≡ closed
  pub no_samples : b.metrics.samples ≡ []
  pub no_probes : b.half_open_in_flight ≡ 0

module _ (entered limit needed : ℕ) where
  probe_more :
      (done ms : ℕ) (r : Readings) (b : CircuitBreaker)
      → IsProbing entered limit needed done b
      → r.check ≤ entered + limit
      → suc done < needed
      → IsProbing entered limit needed (suc done) (step_traffic (success ms) r b)
  unfolding step_traffic record_success check_and_update_state
  probe_more done ms r b p early lt = ground arith

  probe_last :
      (done ms : ℕ) (r : Readings) (b : CircuitBreaker)
      → IsProbing entered limit needed done b
      → r.check ≤ entered + limit
      → needed ≡ suc done
      → IsRecovered (step_traffic (success ms) r b)
  unfolding step_traffic record_success check_and_update_state emit_transition
  probe_last done ms r b p early e = ground (arith, snapshot-reset r.emit b.metrics)

  recovers :
      (done : ℕ) (b : CircuitBreaker) (call : ℕ × Readings) (calls : List (ℕ × Readings))
      → IsProbing entered limit needed done b
      → Until (entered + limit) (call ∷ calls)
      → done + length (call ∷ calls) ≡ needed
      → IsRecovered (run_traffic b (successes (call ∷ calls)))
  unfolding run_traffic
  recovers done b (ms, r) [] p early e = probe_last done ms r b p early.0 (omega arith)
  recovers done b (ms, r) (call ∷ calls) p early e =
      recovers (suc done) (step_traffic (success ms) r b) call calls
        (probe_more done ms r b p early.0 (omega arith)) early.1 (omega arith)

-- A HALF_OPEN breaker that lacks `n > 0` successes is CLOSED, with an empty window and no probe in
-- flight, after `n` successful calls, if the clock stays within the probe timeout.
pub successes-IsRecovered :
    (b : CircuitBreaker) (calls : List (ℕ × Readings))
    → b.state ≡ half_open
    → 0 < length calls
    → b.half_open_successes + length calls ≡ b.config.half_open_max_calls
    → Until (b.half_open_entered_at + b.config.max_half_open_duration_ms) calls
    → IsRecovered (run_traffic b (successes calls))
successes-IsRecovered b [] h pos e early = absurd (omega arith)
successes-IsRecovered b (call ∷ calls) h pos e early =
    recovers b.half_open_entered_at b.config.max_half_open_duration_ms b.config.half_open_max_calls
      b.half_open_successes b call calls
      (record { probing = h; entered_then = refl; allows = refl; needs = refl; has = refl }) early e
