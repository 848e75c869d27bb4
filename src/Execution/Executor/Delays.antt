-- ===== src/Execution/Executor/Delays.antt =====
-- Delays in seconds, as fractions, and the backoff of durallm/execution/policy.py.
use durallm.Common.{
  ℕ, ◌-◌, ◌*◌, ◌^◌, min, Bool, false, Option, none, some, List, [], ◌∷◌, ltb, nat_beq,
  if◌then◌else◌,
}
use durallm.Classifier.Model.{Delay}
use durallm.Execution.Executor.Model.{RetryPolicy}

abbrev pub seconds : ℕ → Delay
seconds n = record { num = n; den = 1 }

abbrev pub milliseconds : ℕ → Delay
milliseconds n = record { num = n; den = 1000 }

abbrev pub delay_lt : Delay → Delay → Bool
delay_lt a b = ltb (a.num * b.den) (b.num * a.den)

abbrev pub delay_min : Delay → Delay → Delay
delay_min a b = if delay_lt b a then b else a

abbrev pub delay_max : Delay → Delay → Delay
delay_max a b = if delay_lt a b then b else a

-- `retry_after or default`: 0 counts as missing.
abbrev pub delay_or : Option Delay → Delay → Delay
delay_or none default = default
delay_or (some d) default = if nat_beq d.num 0 then default else d

-- `min(delays) if delays else 8.0`
unfoldable pub shortest : List Delay → Delay
shortest [] = seconds 8
shortest (d ∷ []) = d
shortest (d ∷ e ∷ ds) = delay_min d (shortest (e ∷ ds))

-- The exponential backoff, before the jitter
unfoldable pub capped_backoff : RetryPolicy → ℕ → ℕ
capped_backoff policy attempt_index =
    min policy.max_backoff_ms (policy.base_backoff_ms * 2 ^ (attempt_index - 1))

abbrev pub is_positive : Option Delay → Bool
is_positive none = false
is_positive (some d) = ltb 0 d.num

abbrev pub delay_of : Option Delay → Delay → Delay
delay_of none default = default
delay_of (some d) default = d

-- `compute_backoff_seconds`
unfoldable pub compute_backoff_seconds : RetryPolicy → (ℕ → ℕ → ℕ) → ℕ → Option Delay → Delay
unfolding capped_backoff
compute_backoff_seconds policy jittered attempt_index retry_after =
    let capped = capped_backoff policy attempt_index in
    let backoff = if policy.jitter then jittered policy.base_backoff_ms capped else capped in
    if is_positive retry_after then delay_of retry_after (seconds 0) else milliseconds backoff
