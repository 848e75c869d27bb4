-- ===== src/Execution/Deadline.antt =====
-- durallm/execution/deadline.py, `Deadline`, in whole milliseconds. Each reading of the clock is an
-- input, since a method reads it more than once.
use durallm.Common.{
  ℕ, ◌+◌, ◌-◌, ◌≤◌, ◌≡◌, inl, inr, Bool, true, false, not, ◌||◌, ◌&&◌, String, leb, ltb, max, min,
  if◌then◌else◌, ◌==◌, string_eq, arith, Bool-cases,
}
use durallm.Common.Fallible.{Fallible, returns, raises, ◌>>◌, ensure}

pub record Deadline : Type 0 where
  pub total_timeout_ms : ℕ
  pub connect_timeout_ms : ℕ
  pub tls_timeout_ms : ℕ
  pub ttft_timeout_ms : ℕ
  pub idle_stream_timeout_ms : ℕ
  pub per_attempt_timeout_ms : ℕ
  pub start_time_monotonic : ℕ

-- Each field without its `_timeout_ms`
pub record TransportTimeouts : Type 0 where
  pub connect : ℕ
  pub tls : ℕ
  pub first_byte : ℕ
  pub idle : ℕ
  pub total : ℕ

-- `DeadlineExceededError` with its two times, and the `ValueError` of `TransportTimeouts`.
pub data DeadlineError : Type 0 where
  deadline_exceeded : ℕ → ℕ → DeadlineError
  not_positive : DeadlineError

-- Subtraction that stops at 0 is the source's `max(0.0, ...)`.
unfoldable pub elapsed_ms : Deadline → ℕ → ℕ
elapsed_ms d now = now - d.start_time_monotonic

unfoldable pub remaining_ms : Deadline → ℕ → ℕ
unfolding elapsed_ms
remaining_ms d now = d.total_timeout_ms - elapsed_ms d now

unfoldable pub is_expired : Deadline → ℕ → Bool
unfolding remaining_ms
is_expired d now = leb (remaining_ms d now) 0

-- `check`; the error is made at a later reading.
unfoldable pub check_deadline : Deadline → ℕ → ℕ → Fallible DeadlineError (Unit {0})
unfolding is_expired elapsed_ms
check_deadline d now later =
    ensure (not (is_expired d now)) (deadline_exceeded d.total_timeout_ms (elapsed_ms d later))

abbrev pub is_enterprise : String → Bool
is_enterprise p = p == "nvidia" || p == "sambanova" || p == "cerebras"

-- The ceiling of the provider.
unfoldable pub provider_target : String → ℕ → ℕ
provider_target p base =
    if is_enterprise p
    then min 90000 (max base (if leb 45000 base then 45000 else base))
    else if p == "groq"
    then min 35000 base
    else base

-- More time for a long prompt, where the ceiling is generous.
unfoldable pub scaled_target : ℕ → ℕ → ℕ → ℕ
scaled_target base tokens target =
    if leb 30000 base
    then if ltb 16000 tokens
      then min (target + 25000) 90000
      else if ltb 8000 tokens
      then min (target + 15000) 75000
      else target
    else target

-- `provider` is in lower case, and empty where there is none.
unfoldable pub per_attempt_timeout_for_provider :
    Deadline → String → ℕ → ℕ → ℕ → Fallible DeadlineError ℕ
unfolding check_deadline remaining_ms provider_target scaled_target
per_attempt_timeout_for_provider d provider tokens now later = do
  check_deadline d now later
  let base = d.per_attempt_timeout_ms
  let target = scaled_target base tokens (provider_target provider base)
  returns (max 100 (min target (remaining_ms d later)))

-- `TransportTimeouts.__post_init__`
unfoldable pub new_timeouts : TransportTimeouts → Fallible DeadlineError TransportTimeouts
new_timeouts t = do
  ensure (leb 1 t.connect && leb 1 t.tls && leb 1 t.first_byte && leb 1 t.idle && leb 1 t.total)
      not_positive
  returns t

abbrev pub clip : Deadline → ℕ → TransportTimeouts
clip d bounded_total = record {
  connect = min d.connect_timeout_ms bounded_total;
  tls = min d.tls_timeout_ms bounded_total;
  first_byte = min d.ttft_timeout_ms bounded_total;
  idle = min d.idle_stream_timeout_ms bounded_total;
  total = bounded_total;
}

unfoldable pub transport_timeouts :
    Deadline → Bool → ℕ → ℕ → Fallible DeadlineError TransportTimeouts
unfolding check_deadline remaining_ms new_timeouts
transport_timeouts d streaming now later = do
  check_deadline d now later
  let limit =
      if streaming
      then remaining_ms d later
      else min (remaining_ms d later) d.per_attempt_timeout_ms
  let bounded_total = max 1 limit
  new_timeouts (clip d bounded_total)

-- Every phase fits in the total, which fits in the limit, a millisecond at least.
pub record IsClipped (limit : ℕ) (t : TransportTimeouts) : Type 0 where
  pub connect_le : t.connect ≤ t.total
  pub tls_le : t.tls ≤ t.total
  pub first_byte_le : t.first_byte ≤ t.total
  pub idle_le : t.idle ≤ t.total
  pub total_le : t.total ≤ max 1 limit

-- What a call promises: it raises `DeadlineExceededError` exactly if the deadline has passed at its
-- first reading of the clock, and what it returns satisfies `P`.
abbrev pub Promises : {A : Type 0} → Bool → (A → Type 0) → Fallible DeadlineError A → Type 0
Promises late P (returns a) = (late ≡ false) × P a
Promises late P (raises (deadline_exceeded _ _)) = late ≡ true
Promises late P (raises not_positive) = ⊥

-- No phase is configured as 0.
pub record IsConfigured (d : Deadline) : Type 0 where
  pub has_connect : 1 ≤ d.connect_timeout_ms
  pub has_tls : 1 ≤ d.tls_timeout_ms
  pub has_ttft : 1 ≤ d.ttft_timeout_ms
  pub has_idle : 1 ≤ d.idle_stream_timeout_ms

clipped : (d : Deadline) (limit total : ℕ) → total ≤ max 1 limit → IsClipped limit (clip d total)
clipped d limit total h = record {
  connect_le = omega arith;
  tls_le = omega arith;
  first_byte_le = omega arith;
  idle_le = omega arith;
  total_le = h;
}

new_timeouts-clip :
    (d : Deadline) (total : ℕ)
    → IsConfigured d
    → 1 ≤ total
    → new_timeouts (clip d total) ≡ returns (clip d total)
unfolding new_timeouts
new_timeouts-clip d total c h = ground arith

passed :
    (d : Deadline) (now : ℕ)
    → is_expired d now ≡ true
    → leb (d.start_time_monotonic + d.total_timeout_ms) (max now d.start_time_monotonic) ≡ true
unfolding is_expired remaining_ms elapsed_ms
passed d now h = ground arith

in_time :
    (d : Deadline) (now : ℕ)
    → is_expired d now ≡ false
    → leb (d.start_time_monotonic + d.total_timeout_ms) (max now d.start_time_monotonic) ≡ false
unfolding is_expired remaining_ms elapsed_ms
in_time d now h = ground arith

-- If no phase is configured as 0, `transport_timeouts` raises exactly if the total timeout has passed
-- since the start; otherwise no phase exceeds the total, and the total is at most the time that
-- remains, or a millisecond if that is less. A call that is not streamed gets at most the timeout of
-- an attempt as well.
pub transport_timeouts-IsClipped :
    (d : Deadline) (streaming : Bool) (now later : ℕ)
    → IsConfigured d
    → Promises
        (leb (d.start_time_monotonic + d.total_timeout_ms) (max now d.start_time_monotonic))
        (λ t.
          IsClipped (remaining_ms d later) t
          × (streaming ≡ false → t.total ≤ max 1 d.per_attempt_timeout_ms))
        (transport_timeouts d streaming now later)
unfolding transport_timeouts check_deadline is_expired
transport_timeouts-IsClipped d true now later c = elim (Bool-cases (is_expired d now)) [
  | inl late ↦ rw (late, transport_timeouts, check_deadline) (passed d now late)
  | inr early ↦
      let total = max 1 (remaining_ms d later) in
      rw (early, transport_timeouts, check_deadline)
        (rw (new_timeouts-clip d total c (omega arith))
          (in_time d now early, (clipped d (remaining_ms d later) total (omega arith), λ no. cc)))
]
transport_timeouts-IsClipped d false now later c = elim (Bool-cases (is_expired d now)) [
  | inl late ↦ rw (late, transport_timeouts, check_deadline) (passed d now late)
  | inr early ↦
      let total = max 1 (min (remaining_ms d later) d.per_attempt_timeout_ms) in
      rw (early, transport_timeouts, check_deadline)
        (rw (new_timeouts-clip d total c (omega arith)) (
          in_time d now early,
          (clipped d (remaining_ms d later) total (omega arith), λ yes'. omega arith),
        ))
]

provider_target-le : (p : String) (base : ℕ) → provider_target p base ≤ max 90000 base
unfolding provider_target
provider_target-le p base = ground arith

scaled_target-le :
    (base tokens target : ℕ)
    → target ≤ max 90000 base
    → scaled_target base tokens target ≤ max 90000 base
unfolding scaled_target
scaled_target-le base tokens target h = ground arith

-- `per_attempt_timeout_for_provider` raises exactly if the total timeout has passed since the start;
-- otherwise an attempt gets at most the time that remains, or a tenth of a second if that is less,
-- and at most ninety seconds or the configured timeout of an attempt, whichever is longer.
pub per_attempt_timeout_le :
    (d : Deadline) (provider : String) (tokens now later : ℕ)
    → Promises
        (leb (d.start_time_monotonic + d.total_timeout_ms) (max now d.start_time_monotonic))
        (λ ms. (ms ≤ max 100 (remaining_ms d later)) × (ms ≤ max 90000 d.per_attempt_timeout_ms))
        (per_attempt_timeout_for_provider d provider tokens now later)
unfolding per_attempt_timeout_for_provider check_deadline
per_attempt_timeout_le d provider tokens now later = elim (Bool-cases (is_expired d now)) [
  | inl late ↦ rw (late, per_attempt_timeout_for_provider, check_deadline) (passed d now late)
  | inr early ↦
      let base = d.per_attempt_timeout_ms in
      let le =
        scaled_target-le base tokens (provider_target provider base)
          (provider_target-le provider base) in
      rw (early, per_attempt_timeout_for_provider, check_deadline)
        (in_time d now early, (omega arith, omega arith))
]
