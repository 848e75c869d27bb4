-- ===== src/Execution/Executor/Kinds.antt =====
-- The books of `execute` in durallm/execution/executor.py: which of its calls take something that has
-- to be given back, and in which order. Most are of no account.
use durallm.Common.{
  ℕ, ◌+◌, ◌≡◌, refl, ap, ◌∙◌, Bool, true, false, not, ◌&&◌, ◌||◌, Option, none, some, String, List,
  [], ◌∷◌, ◌++◌, All, All-append, if◌then◌else◌, if_both, ◌==◌, string_eq,
}
use durallm.Classifier.Model.{FailureClassification, Delay}
use durallm.Routing.Selection.{Endpoint}
use durallm.Execution.Executor.Model
use durallm.Execution.Executor.Model.{
  Call, AttemptStatus, transport_error, succeeded, blocked_indeterminate_operation, key_rotated_429,
  failed, push_all, ToolCheck,
}
use durallm.Execution.Executor.Rollover
use durallm.Execution.Executor.Failure
use durallm.Execution.Executor.Response

-- What is under way, by its name, and how many attempts have been finished: a reservation of the
-- budget, a permission of a breaker, and a stored attempt.
pub record Open : Type 0 where
  pub reservation : Option String
  pub permission : Option String
  pub attempt : Option String
  pub finished : ℕ

abbrev is_there : Option String → Bool
is_there none = false
is_there (some name) = true

abbrev is_named : Option String → String → Bool
is_named none name = false
is_named (some other) name = other == name

-- An attempt that ends so is not reported to the breaker that admitted it.
abbrev pub leaks : AttemptStatus → Bool
leaks transport_error = false
leaks succeeded = false
leaks failed = false
leaks key_rotated_429 = true
leaks blocked_indeterminate_operation = true

abbrev only : Bool → Open → Option Open
only true o = some o
only false o = none

-- One call of the books; none where it is out of order: something is taken while one is under way, is
-- given back under another name or twice, or an attempt ends before its accounts are closed.
abbrev pub post : Call → Open → Option Open
post (Model.reserves id amount) o =
    only (not (is_there o.reservation || is_there o.permission || is_there o.attempt))
      (record o { reservation = some id })
post (Model.releases id) o =
    only (is_named o.reservation id && not (is_there o.permission || is_there o.attempt))
      (record o { reservation = none })
post (Model.settles id amount) o =
    only (is_named o.reservation id && is_named o.attempt id) (record o { reservation = none })
post (Model.acquires_permission key) o =
    only (not (is_there o.permission || is_there o.attempt)) (record o { permission = some key })
post (Model.breaker_success key) o =
    only (is_named o.permission key && is_there o.attempt) (record o { permission = none })
post (Model.breaker_failure key c) o =
    only (is_named o.permission key && is_there o.attempt) (record o { permission = none })
post (Model.prepares id) o =
    only (not (is_there o.attempt) && is_there o.permission) (record o { attempt = some id })
post (Model.dispatches id) o = only (is_there o.attempt && is_there o.permission) o
post (Model.finishes id status) o =
    only
      (is_named o.attempt id
        && not (is_there o.reservation)
        && (if leaks status then is_there o.permission else not (is_there o.permission)))
      (record o { permission = none; attempt = none; finished = o.finished + 1 })
post _ o = some o

abbrev posted : Call → Option Open → Option Open
posted c none = none
posted c (some o) = post c o

-- The books after the calls, which are newest first: none if one of them was out of order.
unfoldable pub replay : List Call → Option Open
replay [] = some (record { reservation = none; permission = none; attempt = none; finished = 0 })
replay (c ∷ cs) = posted c (replay cs)

-- A call that is of no account.
abbrev is_neutral : Call → Bool
is_neutral (Model.reserves id amount) = false
is_neutral (Model.releases id) = false
is_neutral (Model.settles id amount) = false
is_neutral (Model.acquires_permission key) = false
is_neutral (Model.breaker_success key) = false
is_neutral (Model.breaker_failure key c) = false
is_neutral (Model.prepares id) = false
is_neutral (Model.dispatches id) = false
is_neutral (Model.finishes id status) = false
is_neutral _ = true

abbrev pub Neutral : Call → Type 0
Neutral c = is_neutral c ≡ true

Neutral-post : (c : Call) (o : Open) → Neutral c → post c o ≡ some o
Neutral-post (Model.reserves id amount) o h = cc
Neutral-post (Model.releases id) o h = cc
Neutral-post (Model.settles id amount) o h = cc
Neutral-post (Model.acquires_permission key) o h = cc
Neutral-post (Model.breaker_success key) o h = cc
Neutral-post (Model.breaker_failure key c) o h = cc
Neutral-post (Model.prepares id) o h = cc
Neutral-post (Model.dispatches id) o h = cc
Neutral-post (Model.finishes id status) o h = cc
Neutral-post c o h = refl

pub replay-post :
    (c : Call) (calls : List Call) (o o' : Open)
    → replay calls ≡ some o
    → post c o ≡ some o'
    → replay (c ∷ calls) ≡ some o'
unfolding replay
replay-post c calls o o' h e = ap (posted c) h ∙ e

pub replay-push_all :
    (cs calls : List Call) (o : Open)
    → All Neutral cs
    → replay calls ≡ some o
    → replay (push_all cs calls) ≡ some o
unfolding push_all
replay-push_all [] calls o n h = h
replay-push_all (c ∷ cs) calls o (n, ns) h =
    replay-push_all cs (c ∷ calls) o ns (replay-post c calls o o h (Neutral-post c o n))

pub lane_success-Neutral : (o : Option String) → All Neutral (Failure.lane_success o)
lane_success-Neutral none = tt
lane_success-Neutral (some lane) = (refl, tt)

pub lane_failure-Neutral :
    (o : Option String) (c : FailureClassification) → All Neutral (Failure.lane_failure o c)
unfolding Failure.lane_failure
lane_failure-Neutral none c = tt
lane_failure-Neutral (some lane) c =
    if_both (All Neutral) (Model.is_rate_limit c.reason) (refl, tt) tt

dead-Neutral : (ep : Endpoint) (c : FailureClassification) → All Neutral (Failure.dead_calls ep c)
unfolding Failure.dead_calls
dead-Neutral ep c = if_both (All Neutral) (Failure.is_gone c) (refl, (refl, tt)) tt

billing-Neutral :
    (ep : Endpoint) (c : FailureClassification) → All Neutral (Failure.billing_calls ep c)
unfolding Failure.billing_calls
billing-Neutral ep c = if_both (All Neutral) (not (Failure.is_billing c.reason)) tt (
    if_both (All Neutral) (Failure.is_account_wide ep c) (refl, (refl, (refl, (refl, tt))))
      (refl, (refl, tt)))

-- All that a failure tells the others but the breaker
pub failure-Neutral :
    (ep : Endpoint) (c : FailureClassification)
    → All Neutral (
        Failure.billing_calls ep c ++ Failure.dead_calls ep c ++ Failure.lane_failure ep.lane_key c)
failure-Neutral ep c =
    All-append Neutral (Failure.billing_calls ep c ++ Failure.dead_calls ep c) _
      (All-append Neutral (Failure.billing_calls ep c) _ (billing-Neutral ep c) (dead-Neutral ep c))
      (lane_failure-Neutral ep.lane_key c)

pub cooldown-Neutral :
    (ep : Endpoint) (o : Option Delay) → All Neutral (Failure.cooldown_calls ep o)
cooldown-Neutral ep none = tt
cooldown-Neutral ep (some d) = (refl, (refl, tt))

pub key-Neutral : (o : Option String) (d : Option Delay) → All Neutral (Failure.key_call o d)
key-Neutral none d = tt
key-Neutral (some key) d = (refl, tt)

checked-Neutral : (ep : Endpoint) (t : ToolCheck) → All Neutral (Response.checked ep t).0
checked-Neutral ep t =
    let P : List Call × Response.ToolVerdict → Type 0 = λ r. All Neutral r.0 in
    let replay = if t.has_receipt then Model.replays_tool t.ledger_call_id ∷ [] else [] in
    let seen : All Neutral replay = if_both (All Neutral) t.has_receipt (refl, tt) tt in
    if_both P (not t.has_receipt && t.is_indeterminate) (refl, (refl, tt))
      (if_both P t.is_executable (refl, All-append Neutral replay _ seen (refl, (refl, tt)))
        (refl, All-append Neutral replay _ seen (refl, (refl, tt))))

followed-Neutral :
    (r rest : List Call × Response.ToolVerdict)
    → All Neutral r.0
    → All Neutral rest.0
    → All Neutral (Response.followed r rest).0
followed-Neutral (cs, Response.all_valid) (cs', verdict) h k = All-append Neutral cs cs' h k
followed-Neutral (cs, Response.one_invalid) rest h k = h
followed-Neutral (cs, Response.blocked) rest h k = h

pub tools-Neutral :
    (ep : Endpoint) (ts : List ToolCheck) → All Neutral (Response.check_tools ep ts).0
unfolding Response.check_tools
tools-Neutral ep [] = tt
tools-Neutral ep (t ∷ ts) =
    followed-Neutral (Response.checked ep t) (Response.check_tools ep ts) (checked-Neutral ep t)
      (tools-Neutral ep ts)

lane_call-Neutral : (o : Option String) → All Neutral (Rollover.lane_call o)
lane_call-Neutral none = tt
lane_call-Neutral (some lane) = (refl, tt)

lane_calls-Neutral : (eps : List Endpoint) (id : String) → All Neutral (Rollover.lane_calls eps id)
lane_calls-Neutral [] id = tt
lane_calls-Neutral (ep ∷ eps) id =
    All-append Neutral (if ep.id == id then Rollover.lane_call ep.lane_key else []) _
      (if_both (All Neutral) (ep.id == id) (lane_call-Neutral ep.lane_key) tt)
      (lane_calls-Neutral eps id)

pub lanes-Neutral :
    (eps : List Endpoint) (ids : List String) → All Neutral (Rollover.all_lane_calls eps ids)
lanes-Neutral eps [] = tt
lanes-Neutral eps (id ∷ ids) =
    All-append Neutral (Rollover.lane_calls eps id) _ (lane_calls-Neutral eps id)
      (lanes-Neutral eps ids)
