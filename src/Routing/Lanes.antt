-- ===== src/Routing/Lanes.antt =====
-- durallm/routing/resources.py, `ResourceLaneStore`, and the warm entries of durallm/routing/cache.py,
-- `PromptCacheTracker`. Times are in milliseconds, and the clock's answer is an argument.
use mathlib.Core.Path.{subst}
use durallm.Common.{
  ℕ, ◌+◌, ◌≤◌, ◌≡◌, refl, sym, ◌∙◌, inl, inr, Bool, true, false, ◌||◌, Option, none, some, String,
  List, [], ◌∷◌, leb, ltb, if◌then◌else◌, ◌==◌, string_eq, pair_eq, eq_iff, arith, Bool-cases,
}
use durallm.Common.Dict
use durallm.Common.Dict.{Dict}

pub record ResourceLaneStatus : Type 0 where
  pub available : Bool
  pub reason : Option String
  pub expires_at : Option ℕ

-- `self.expires_at is not None and self.expires_at <= now`
abbrev pub is_over : Option ℕ → ℕ → Bool
is_over none now = false
is_over (some expires_at) now = leb expires_at now

abbrev pub is_available : ResourceLaneStatus → ℕ → Bool
is_available s now = s.available || is_over s.expires_at now

abbrev pub open_lane : ResourceLaneStatus
open_lane = record { available = true; reason = none; expires_at = none }

abbrev pub expiry : Option ℕ → ℕ → Option ℕ
expiry none now = none
expiry (some retry_after) now = some (now + retry_after)

unfoldable pub set_unavailable :
    String → String → Option ℕ → ℕ → Dict String ResourceLaneStatus → Dict String ResourceLaneStatus
set_unavailable lane_key reason retry_after now statuses =
    Dict.insert lane_key
      (record { available = false; reason = some reason; expires_at = expiry retry_after now })
      statuses

unfoldable pub set_available :
    String → Dict String ResourceLaneStatus → Dict String ResourceLaneStatus
set_available lane_key statuses = Dict.insert lane_key open_lane statuses

-- The answer of `status` on what the dictionary holds.
unfoldable pub report : Option ResourceLaneStatus → ℕ → ResourceLaneStatus
report none now = open_lane
report (some current) now = if is_available current now then open_lane else current

-- An expired entry is written back as available.
unfoldable pub tidy :
    String
    → Option ResourceLaneStatus
    → ℕ
    → Dict String ResourceLaneStatus
    → Dict String ResourceLaneStatus
tidy lane_key none now statuses = statuses
tidy lane_key (some current) now statuses =
    if is_available current now
    then (if current.available then statuses else Dict.insert lane_key open_lane statuses)
    else statuses

unfoldable pub status :
    String
    → ℕ
    → Dict String ResourceLaneStatus
    → ResourceLaneStatus × Dict String ResourceLaneStatus
unfolding report tidy
status lane_key now statuses =
    let current = Dict.lookup lane_key statuses in
    (report current now, tidy lane_key current now statuses)

abbrev pub reset : Dict String ResourceLaneStatus → Dict String ResourceLaneStatus
reset statuses = []

-- One call of a method, at the time of its reading of the clock.
pub data LaneCall : Type 0 where
  closes : String → String → Option ℕ → LaneCall
  opens asks : String → LaneCall
  resets : LaneCall

unfoldable pub step : ℕ → LaneCall → Dict String ResourceLaneStatus → Dict String ResourceLaneStatus
step now (closes lane_key reason retry_after) statuses =
    set_unavailable lane_key reason retry_after now statuses
step now (opens lane_key) statuses = set_available lane_key statuses
step now (asks lane_key) statuses = (status lane_key now statuses).1
step now resets statuses = reset statuses

unfoldable pub run :
    List (ℕ × LaneCall) → Dict String ResourceLaneStatus → Dict String ResourceLaneStatus
run [] statuses = statuses
run ((now, c) ∷ cs) statuses = run cs (step now c statuses)

-- What was last said of a lane: nothing or that it is free, or that it is blocked, why, since when
-- and for how long.
pub data Word : Type 0 where
  free : Word
  blocked : String → ℕ → Option ℕ → Word

abbrev word : String → ℕ → LaneCall → Word → Word
word lane now (closes lane_key reason retry_after) w =
    if lane_key == lane then blocked reason now retry_after else w
word lane now (opens lane_key) w = if lane_key == lane then free else w
word lane now (asks lane_key) w = w
word lane now resets w = free

abbrev pub last_word : String → List (ℕ × LaneCall) → Word → Word
last_word lane [] w = w
last_word lane ((now, c) ∷ cs) w = last_word lane cs (word lane now c w)

-- What a lane should answer at a time.
abbrev pub meant : Word → ℕ → ResourceLaneStatus
meant free t = open_lane
meant (blocked reason since none) t = record {
  available = false;
  reason = some reason;
  expires_at = none;
}
meant (blocked reason since (some wait)) t =
    if ltb t (since + wait)
    then record { available = false; reason = some reason; expires_at = some (since + wait) }
    else open_lane

-- The clock does not go back from one reading to the next, the last of which is `t`.
abbrev pub InOrder : ℕ → List (ℕ × LaneCall) → ℕ → Type 0
InOrder now [] t = now ≤ t
InOrder now ((n, c) ∷ cs) t = (now ≤ n) × InOrder n cs t

still_over :
    (expires_at : Option ℕ) (now t : ℕ)
    → now ≤ t
    → is_over expires_at now ≡ true
    → is_over expires_at t ≡ true
still_over none now t le h = h
still_over (some e) now t le h = ground arith

-- Writing an expired entry back is not noticed afterwards.
tidy-report :
    (lane : String) (o : Option ResourceLaneStatus) (now t : ℕ)
    (statuses : Dict String ResourceLaneStatus)
    → Dict.lookup lane statuses ≡ o
    → now ≤ t
    → report (Dict.lookup lane (tidy lane o now statuses)) t ≡ report o t
unfolding tidy report
tidy-report lane none now t statuses e le = rw e refl
tidy-report lane (some current) now t statuses e le =
    let found = Dict.lookup-insert_self lane open_lane statuses in
    let over = still_over current.expires_at now t le in ground arith

tidy_other :
    (lane other : String) (o : Option ResourceLaneStatus) (now : ℕ)
    (statuses : Dict String ResourceLaneStatus)
    → (other == lane) ≡ false
    → Dict.lookup lane (tidy other o now statuses) ≡ Dict.lookup lane statuses
unfolding tidy
tidy_other lane other none now statuses ne = refl
tidy_other lane other (some current) now statuses ne =
    let kept = Dict.lookup-insert other lane open_lane statuses in ground arith

-- The entry of a lane answers what is meant by what was last said of it, from a time on.
abbrev Agrees : Option ResourceLaneStatus → Word → ℕ → Type 0
Agrees o w now = (t : ℕ) → now ≤ t → report o t ≡ meant w t

blocked-Agrees :
    (reason : String) (now : ℕ) (retry_after : Option ℕ)
    → Agrees
        (some
          (record { available = false; reason = some reason; expires_at = expiry retry_after now }))
        (blocked reason now retry_after)
        now
unfolding report
blocked-Agrees reason now none t le = refl
blocked-Agrees reason now (some wait) t le = ground arith

step-Agrees :
    (lane : String) (now last : ℕ) (c : LaneCall) (w : Word)
    (statuses : Dict String ResourceLaneStatus)
    → last ≤ now
    → Agrees (Dict.lookup lane statuses) w last
    → Agrees (Dict.lookup lane (step now c statuses)) (word lane now c w) now
unfolding step set_unavailable set_available status
step-Agrees lane now last (closes lane_key reason retry_after) w statuses later h t le =
    rw Dict.lookup-insert (elim (Bool-cases (lane_key == lane)) [
      | inl same ↦ rw same (blocked-Agrees reason now retry_after t le)
      | inr other ↦ rw other (h t (omega arith))
    ])
step-Agrees lane now last (opens lane_key) w statuses later h t le =
    rw Dict.lookup-insert (elim (Bool-cases (lane_key == lane)) [
      | inl same ↦ rw same (unfold report in refl)
      | inr other ↦ rw other (h t (omega arith))
    ])
step-Agrees lane now last (asks lane_key) w statuses later h t le =
    elim (Bool-cases (lane_key == lane)) [
      | inr other ↦
          rw (tidy_other lane lane_key (Dict.lookup lane_key statuses) now statuses other)
            (h t (omega arith))
      | inl same ↦
          let e = (eq_iff lane_key lane).0 same in
          subst
            (λ k.
              report (Dict.lookup lane (tidy k (Dict.lookup k statuses) now statuses)) t
              ≡ meant w t)
            (sym e)
            (tidy-report lane (Dict.lookup lane statuses) now t statuses refl le
              ∙ h t (omega arith))
    ]
step-Agrees lane now last resets w statuses later h t le = unfold report Dict.lookup in refl

run-Agrees :
    (lane : String) (last t : ℕ) (cs : List (ℕ × LaneCall)) (w : Word)
    (statuses : Dict String ResourceLaneStatus)
    → InOrder last cs t
    → Agrees (Dict.lookup lane statuses) w last
    → report (Dict.lookup lane (run cs statuses)) t ≡ meant (last_word lane cs w) t
unfolding run
run-Agrees lane last t [] w statuses order h = h t order
run-Agrees lane last t ((now, c) ∷ cs) w statuses order h =
    run-Agrees lane now t cs (word lane now c w) (step now c statuses) order.1
      (step-Agrees lane now last c w statuses order.0 h)

-- After any calls on a new store, if the clock does not go back, a lane is unavailable exactly if
-- the last `set_unavailable` or `set_available` of that lane was a `set_unavailable`, no `reset`
-- came after it, and the time to retry that it named has not been reached, or it named none; it
-- then gives that call's reason and the time at which it ends. Questions about any lane, which
-- write expired entries back, and calls on other lanes make no difference.
pub status-eq-meant :
    (lane : String) (t : ℕ) (cs : List (ℕ × LaneCall))
    → InOrder 0 cs t
    → (status lane t (run cs [])).0 ≡ meant (last_word lane cs free) t
unfolding status
status-eq-meant lane t cs order =
    run-Agrees lane 0 t cs free [] order (λ t' le. unfold report Dict.lookup in refl)

pub record PromptCacheTracker : Type 0 where
  pub ttl : ℕ
  pub warm_entries : Dict (String × String) ℕ

unfoldable pub record_warm_cache : String → String → ℕ → PromptCacheTracker → PromptCacheTracker
record_warm_cache endpoint_id prefix_hash now s = record s {
  warm_entries = Dict.insert (endpoint_id, prefix_hash) (now + s.ttl) s.warm_entries;
}

unfoldable pub warm : Option ℕ → ℕ → Bool
warm none now = false
warm (some expires_at) now = ltb now expires_at

-- An entry that has expired is deleted.
unfoldable pub is_warm : String → String → ℕ → PromptCacheTracker → Bool × PromptCacheTracker
unfolding warm
is_warm endpoint_id prefix_hash now s =
    let key : String × String = (endpoint_id, prefix_hash) in
    if warm (Dict.lookup key s.warm_entries) now
    then (true, s)
    else (false, record s { warm_entries = Dict.remove key s.warm_entries })

-- Right after a warm cache was recorded the answer for its endpoint and prefix is true exactly
-- until the time to live has passed.
is_warm-record_warm_cache :
    (endpoint_id prefix_hash : String) (now t : ℕ) (s : PromptCacheTracker)
    → (is_warm endpoint_id prefix_hash t (record_warm_cache endpoint_id prefix_hash now s)).0
      ≡ ltb t (now + s.ttl)
unfolding is_warm record_warm_cache warm
is_warm-record_warm_cache endpoint_id prefix_hash now t s =
    ground (arith, Dict.lookup-insert_self (endpoint_id, prefix_hash) (now + s.ttl) s.warm_entries)
