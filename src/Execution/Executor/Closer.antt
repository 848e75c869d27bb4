-- ===== src/Execution/Executor/Closer.antt =====
-- A round for a selected endpoint excludes it or spends an attempt.
use durallm.Execution.Deadline.{per_attempt_timeout_for_provider}
use durallm.Common.Fallible.{Fallible-cases}
use durallm.Common.{
  ◌≡◌, inl, inr, ◌⊎◌, Bool, true, not, ◌&&◌, Option, none, some, String, ◌==◌, string_eq, arith,
  Option-cases, if_split, beq_refl,
}
use durallm.Routing.Selection.{Endpoint, has_id}
use durallm.Execution.Attempts
use durallm.Execution.Executor.Model.{Setup, Turn, Progress, Flow, exclude}
use durallm.Execution.Executor.Ensures.{Ensures, EndsIn, Ensures-bind, EndsIn-map}
use durallm.Execution.Executor.Spends.{
  Levels, levels, Uses, Spends, Grows-cons, Spends-trans, after_reply-Spends,
}
use durallm.Execution.Executor.Sizing
use durallm.Execution.Executor.Admission
use durallm.Execution.Executor.Response
use durallm.Execution.Executor.Loop

-- How a round that goes on to the next one has used up something.
pub record Excludes (ep : Endpoint) (l l' : Levels) : Type 0 where
  pub spends : Uses 0 l l'
  pub out : has_id ep.id l'.excluded ≡ true

abbrev pub Closer : Endpoint → Progress → Progress → Type 0
Closer ep s s' = Excludes ep (levels s) (levels s') ⊎ Spends 1 s s'

-- What a round that ends `execute` has used.
abbrev pub Spent : Progress → Progress → Type 0
Spent s s' = Spends 0 s s' ⊎ Spends 1 s s'

exclude-Excludes :
    (ep : Endpoint) (s s' : Progress)
    → Spends 0 s s'
    → Excludes ep (levels s) (levels (exclude ep.id s'))
exclude-Excludes ep s s' h = record {
  spends = record {
    max_total = h.max_total;
    attempts = h.attempts;
    waits = h.waits;
    grows = Grows-cons ep.id s.excluded_endpoints s'.excluded_endpoints h.grows;
  };
  out = ground (arith, beq_refl ep.id);
}

module _ (setup : Setup) (turn : Turn) (ep : Endpoint) (s0 : Progress) where
  abbrev Passes : Flow Progress → Type 0
  Passes = Ensures (Closer ep s0) (Spent s0) (Spends 0 s0)

  validate-Passes : (s : Progress) → Spends 0 s0 s → Passes (Admission.validate ep s)
  unfolding Admission.validate
  validate-Passes s h = elim (Option-cases (Attempts.validate_next_candidate ep.id s.ledger)) [
    | inl e ↦ rw (e, Admission.validate) h
    | inr (error, e) ↦ rw (e, Admission.validate) (inl (exclude-Excludes ep s0 s h))
  ]

  fitted-Passes :
      (shrunk : Bool) (o : Option Bool) (s : Progress)
      → Spends 0 s0 s
      → Passes (Sizing.fitted ep shrunk s o)
  fitted-Passes shrunk none s h = inl (exclude-Excludes ep s0 s h)
  fitted-Passes shrunk (some was_compacted) s h =
      if_split Passes (shrunk && not was_compacted) (λ stuck. inl (exclude-Excludes ep s0 s h))
        (λ ok. h)

  adapt-Passes :
      (s : Progress) → Spends 0 s0 s → Passes (Sizing.adapt setup.estimated_tokens turn ep s)
  unfolding Sizing.adapt
  adapt-Passes s h = fitted-Passes _ _ s h

  switched-Spends :
      (s : Progress) (source : Option String)
      → Spends 0 s0 s
      → Spends 0 s0 (Sizing.switched ep.id s source)
  unfolding Attempts.mark_fallback
  switched-Spends s none h = h
  switched-Spends s (some source) h =
      if_split (Spends 0 s0) (source == ep.id) (λ same. h)
        (λ other. if_split (λ t. Spends 0 s0 t) s.fallback_marked (λ counted. h) (λ hop. h))

  plan-Spends : (s : Progress) → Spends 0 s0 s → Spends 0 s0 (Sizing.plan_failover ep s)
  unfolding Sizing.plan_failover Attempts.mark_fallback
  plan-Spends s h = switched-Spends s s.last_endpoint h

  timeout-Passes :
      (s : Progress) → Spends 0 s0 s → Passes (Admission.attempt_timeout setup turn ep s)
  unfolding Admission.attempt_timeout
  timeout-Passes s h =
      elim (Fallible-cases (
        per_attempt_timeout_for_provider setup.deadline ep.provider setup.estimated_tokens
          turn.dispatch_time turn.dispatch_time)) [
            | inl (ms, e) ↦ rw (e, Admission.attempt_timeout) h
            | inr (error, e) ↦ rw (e, Admission.attempt_timeout) (inl h)
          ]

  reserve-Passes :
      (s : Progress) → Spends 0 s0 s → Passes (Admission.reserve_budget setup turn ep s)
  unfolding Admission.reserve_budget
  reserve-Passes s h =
      if_split Passes (not setup.has_budget_limit) (λ free. h)
        (λ paid.
          if_split Passes turn.is_reserved (λ yes'. h) (λ no'. inl (exclude-Excludes ep s0 s h)))

  acquire-Passes :
      (s : Progress) → Spends 0 s0 s → Passes (Admission.acquire_permission setup turn ep s)
  unfolding Admission.acquire_permission
  acquire-Passes s h =
      if_split Passes turn.is_admitted (λ yes'. h) (λ no'. inl (exclude-Excludes ep s0 s h))

  admit-Passes : (s : Progress) → Spends 0 s0 s → Passes (Admission.admit setup turn ep s)
  unfolding Admission.admit
  admit-Passes s h =
      Ensures-bind (Closer ep s0) (Spent s0) (Spends 0 s0) (Spends 0 s0) _ _ (timeout-Passes s h)
        λ s1 h1.
          Ensures-bind (Closer ep s0) (Spent s0) (Spends 0 s0) (Spends 0 s0) _ _
            (reserve-Passes s1 h1)
            λ s2 h2.
              Ensures-bind (Closer ep s0) (Spent s0) (Spends 0 s0) (Spends 0 s0) _ _
                (acquire-Passes s2 h2) λ s3 h3. h3

  pub try_endpoint-Closer :
      (s : Progress)
      → Spends 0 s0 s
      → EndsIn (Closer ep s0) (Spent s0) (Loop.try_endpoint setup turn ep s)
  unfolding Loop.try_endpoint
  try_endpoint-Closer s h =
      let R = Closer ep s0 in
      let X = Spent s0 in
      let P = Spends 0 s0 in
      Ensures-bind R X P _ _ _ (validate-Passes s h) λ s1 h1.
        Ensures-bind R X P _ _ _ (adapt-Passes s1 h1) λ s2 h2.
          Ensures-bind R X P _ _ _ (admit-Passes (Sizing.plan_failover ep s2) (plan-Spends s2 h2))
            λ s3 h3.
              EndsIn-map (Response.after_reply setup turn ep s3 turn.reply)
                (λ t k. inr (Spends-trans 0 1 s0 s3 t h3 k))
                (λ t k. inr (Spends-trans 0 1 s0 s3 t h3 k))
                (after_reply-Spends setup turn ep s3 turn.reply)
