-- ===== src/Breaker/Circuit/Admission.antt =====
-- Which calls a breaker admits, over runs of traffic.
use durallm.Common.{
  ℕ, ◌+◌, ◌≤◌, ◌<◌, ◌≡◌, refl, ap, ◌∙◌, Bool, true, false, List, [], ◌∷◌, arith, if◌then◌else◌, All,
}
use durallm.Breaker.State.{opened, half_open, forced_open, CircuitBreaker, emit_transition}
use durallm.Breaker.Circuit.{
  Readings, Permission, granted, check_and_update_state, acquire_permission, record_success,
  record_failure,
}
use durallm.Breaker.Calls.{Traffic, observe, acquire, success, failure, step_traffic, run_traffic}

abbrev pub is_granted : Permission → Bool
is_granted granted = true
is_granted _ = false

-- 1 if the call asks for admission and is admitted.
abbrev pub grant : Traffic → Readings → CircuitBreaker → ℕ
grant acquire r b = if is_granted (acquire_permission r b).0 then 1 else 0
grant _ r b = 0

-- How many calls of the run are admitted.
unfoldable pub grants : CircuitBreaker → List (Traffic × Readings) → ℕ
grants b [] = 0
grants b ((t, r) ∷ calls) = grant t r b + grants (step_traffic t r b) calls

-- The clock of every call shows less than `limit`.
abbrev pub Before : ℕ → List (Traffic × Readings) → Type 0
Before limit calls = All (λ (c : Traffic × Readings). c.1.check < limit) calls

-- Nothing but the metrics differs, and `b` is OPEN since `since`.
record IsOpenSince (since : ℕ) (wait : ℕ) (b : CircuitBreaker) : Type 0 where
  is_opened : b.state ≡ opened
  opened_then : b.opened_at ≡ since
  waits : b.config.wait_duration_open_ms ≡ wait

module _ (since wait : ℕ) where
  stays_open :
      (t : Traffic) (r : Readings) (b : CircuitBreaker)
      → IsOpenSince since wait b
      → r.check < since + wait
      → IsOpenSince since wait (step_traffic t r b) × (grant t r b ≡ 0)
  unfolding step_traffic acquire_permission check_and_update_state record_success record_failure
  stays_open observe r b h lt = ground arith
  stays_open acquire r b h lt = ground arith
  stays_open (success ms) r b h lt = ground arith
  stays_open (failure ms poisons) r b h lt = ground arith

  blocks :
      (b : CircuitBreaker) (calls : List (Traffic × Readings))
      → IsOpenSince since wait b
      → Before (since + wait) calls
      → (grants b calls ≡ 0) × IsOpenSince since wait (run_traffic b calls)
  unfolding grants run_traffic
  blocks b [] h early = (refl, h)
  blocks b ((t, r) ∷ calls) h early =
      let (h', none_here) = stays_open t r b h early.0 in
      let (none_later, still) = blocks (step_traffic t r b) calls h' early.1 in (omega arith, still)

-- While the clock shows less than the time of the trip plus the wait, an OPEN breaker admits no
-- call of any traffic and stays OPEN, and its wait is not prolonged by what completes meanwhile.
pub opened-grants :
    (b : CircuitBreaker) (calls : List (Traffic × Readings))
    → b.state ≡ opened
    → Before (b.opened_at + b.config.wait_duration_open_ms) calls
    → (grants b calls ≡ 0)
      × ((run_traffic b calls).state ≡ opened)
      × ((run_traffic b calls).opened_at ≡ b.opened_at)
opened-grants b calls h early =
    let (zero_grants, still) =
      blocks b.opened_at b.config.wait_duration_open_ms b calls
        (record { is_opened = h; opened_then = refl; waits = refl }) early in
    (zero_grants, still.is_opened, still.opened_then)

forced_open_step :
    (t : Traffic) (r : Readings) (b : CircuitBreaker)
    → b.state ≡ forced_open
    → ((step_traffic t r b).state ≡ forced_open) × (grant t r b ≡ 0)
unfolding step_traffic acquire_permission check_and_update_state record_success record_failure
forced_open_step t r b h = ground arith

-- A FORCED_OPEN breaker admits no call and stays FORCED_OPEN, at any times and however the calls
-- under way end: only an administrator moves it.
pub forced_open-grants :
    (b : CircuitBreaker) (calls : List (Traffic × Readings))
    → b.state ≡ forced_open
    → (grants b calls ≡ 0) × ((run_traffic b calls).state ≡ forced_open)
unfolding grants run_traffic
forced_open-grants b [] h = (refl, h)
forced_open-grants b ((t, r) ∷ calls) h =
    let (h', none_here) = forced_open_step t r b h in
    let (none_later, still) = forced_open-grants (step_traffic t r b) calls h' in
    (omega arith, still)

-- HALF_OPEN before, between and after the calls.
abbrev pub Probing : CircuitBreaker → List (Traffic × Readings) → Type 0
Probing b [] = b.state ≡ half_open
Probing b ((t, r) ∷ calls) = (b.state ≡ half_open) × Probing (step_traffic t r b) calls

Probing-head :
    (b : CircuitBreaker) (calls : List (Traffic × Readings)) → Probing b calls → b.state ≡ half_open
Probing-head b [] h = h
Probing-head b (c ∷ calls) h = h.0

abbrev pub completion : Traffic → ℕ
completion (success _) = 1
completion (failure _ _) = 1
completion _ = 0

-- How many calls of the run report an end.
abbrev pub completions : List (Traffic × Readings) → ℕ
completions [] = 0
completions ((t, r) ∷ calls) = completion t + completions calls

record ProbeStep (t : Traffic) (r : Readings) (b : CircuitBreaker) : Type 0 where
  same_config : (step_traffic t r b).config ≡ b.config
  bounded : (step_traffic t r b).half_open_in_flight ≤ b.config.half_open_max_calls
  counted :
      grant t r b + b.half_open_in_flight ≤ (step_traffic t r b).half_open_in_flight + completion t

probe_step :
    (t : Traffic) (r : Readings) (b : CircuitBreaker)
    → b.state ≡ half_open
    → (step_traffic t r b).state ≡ half_open
    → b.half_open_in_flight ≤ b.config.half_open_max_calls
    → ProbeStep t r b
unfolding step_traffic acquire_permission check_and_update_state record_success record_failure
    emit_transition
probe_step observe r b h k le = ground arith
probe_step acquire r b h k le = ground arith
probe_step (success ms) r b h k le = ground arith
probe_step (failure ms poisons) r b h k le = ground arith

-- While the breaker stays HALF_OPEN, the calls admitted are at most the permits that were free
-- plus the calls that completed.
pub probe-grants :
    (b : CircuitBreaker) (calls : List (Traffic × Readings))
    → Probing b calls
    → b.half_open_in_flight ≤ b.config.half_open_max_calls
    → grants b calls + b.half_open_in_flight ≤ b.config.half_open_max_calls + completions calls
unfolding grants
probe-grants b [] h le = omega arith
probe-grants b ((t, r) ∷ calls) h le =
    let b' = step_traffic t r b in
    let s : ProbeStep t r b = probe_step t r b h.0 (Probing-head b' calls h.1) le in
    let same : b'.config.half_open_max_calls ≡ b.config.half_open_max_calls =
      ap (λ c. c.half_open_max_calls) s.same_config in
    omega (arith, s.bounded, s.counted, probe-grants b' calls h.1 (omega (arith, s.bounded)))

-- Calls that only look or ask for admission.
abbrev pub asking : List (Bool × Readings) → List (Traffic × Readings)
asking [] = []
asking ((true, r) ∷ calls) = (acquire, r) ∷ asking calls
asking ((false, r) ∷ calls) = (observe, r) ∷ asking calls

leaked_step :
    (ask : Bool) (r : Readings) (b : CircuitBreaker)
    → b.state ≡ half_open
    → 0 < b.half_open_in_flight
    → b.config.half_open_max_calls ≤ b.half_open_in_flight
    → let t = if ask then acquire else observe in (step_traffic t r b ≡ b) × (grant t r b ≡ 0)
unfolding step_traffic acquire_permission check_and_update_state
leaked_step true r b h pos full = ground arith
leaked_step false r b h pos full = ground arith

-- If every permit of a HALF_OPEN breaker is held by a probe that never reports its end, no call is
-- admitted and nothing changes, whatever the clock shows: the probe timeout does not apply.
pub leaked-grants :
    (b : CircuitBreaker) (calls : List (Bool × Readings))
    → b.state ≡ half_open
    → 0 < b.half_open_in_flight
    → b.config.half_open_max_calls ≤ b.half_open_in_flight
    → (grants b (asking calls) ≡ 0) × (run_traffic b (asking calls) ≡ b)
unfolding grants run_traffic
leaked-grants b [] h pos full = (refl, refl)
leaked-grants b ((true, r) ∷ calls) h pos full =
    let (same, none_here) = leaked_step true r b h pos full in
    let rest = leaked-grants b calls h pos full in
    (
      rw (same, none_here) (omega (arith, rest.0)),
      ap (λ b'. run_traffic b' (asking calls)) same ∙ rest.1,
    )
leaked-grants b ((false, r) ∷ calls) h pos full =
    let same : step_traffic observe r b ≡ b = (leaked_step false r b h pos full).0 in
    let rest = leaked-grants b calls h pos full in
    (rw same (omega (arith, rest.0)), ap (λ b'. run_traffic b' (asking calls)) same ∙ rest.1)
