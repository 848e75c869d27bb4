-- ===== src/Pools/Manager.antt =====
-- `IsolatedPoolManager` of durallm/pools.py. Each method runs under a lock and is given one reading of
-- the two clocks, in milliseconds. `lower` is Python's `str.lower` on ASCII letters.
use Prim.Native.Char.{Char, code}
use Prim.Native.String.{◌++◌ as text_append}
use durallm.Common.{
  ℕ, suc, ◌+◌, ◌-◌, ◌%◌, Bool, true, false, not, ◌&&◌, ◌||◌, Option, none, some, String, List, [],
  ◌∷◌, ◌++◌, ltb, leb, nat_beq, any, keep, length, get_elem?, if◌then◌else◌, ◌==◌, string_eq,
  pair_eq,
}
use durallm.Common.Text.{codes, strip}
use durallm.Common.Dict
use durallm.Common.Dict.{Dict}

pub record RouteDefinition : Type 0 where
  pub id : String
  pub provider : String
  pub model : String
  pub pool : String
  pub base_url : String
  pub api_format : String
  pub env_key : Option String
  pub env_keys : List String
  pub context_length : ℕ
  pub max_output_tokens : ℕ
  pub headers : List (String × String)
  pub is_discovered : Bool

-- The keys of the first three maps are pairs of a pool and a route, or a model.
pub record IsolatedPoolManager : Type 0 where
  pub allowed_providers : Option (List String)
  pub keys : Dict String String
  pub coding_routes : List RouteDefinition
  pub agent_routes : List RouteDefinition
  pub coding_index : ℕ
  pub agent_index : ℕ
  pub cooldowns : Dict (String × String) ℕ
  pub deprecated : List (String × String)
  pub exhausted_quotas : Dict (String × String) ℕ
  pub account_lockouts : Dict String ℕ
  pub last_success : Dict String String
  pub last_success_at : Dict String ℕ

-- `time.monotonic()` and `time.time()`
pub record Clock : Type 0 where
  pub monotonic : ℕ
  pub epoch : ℕ

abbrev paired : Char → String → String → Char
paired c (String.◌∷◌ a as') (String.◌∷◌ b bs) =
    if nat_beq (code a) (code c) then b else paired c as' bs
paired c as' bs = c

unfoldable pub lower : String → String
lower String.[] = String.[]
lower (String.◌∷◌ c s) =
    String.◌∷◌ (paired c "ABCDEFGHIJKLMNOPQRSTUVWXYZ" "abcdefghijklmnopqrstuvwxyz") (lower s)

abbrev pub is_coding : String → Bool
is_coding pool = pool == "coding"

abbrev pub routes_of : String → IsolatedPoolManager → List RouteDefinition
routes_of pool s = if is_coding pool then s.coding_routes else s.agent_routes

abbrev pub or_zero : Option ℕ → ℕ
or_zero none = 0
or_zero (some t) = t

unfoldable pub mark_cooldown :
    String → String → ℕ → Clock → IsolatedPoolManager → IsolatedPoolManager
mark_cooldown pool route_id seconds now s = record s {
  cooldowns = Dict.insert (lower pool, lower route_id) (now.monotonic + seconds) s.cooldowns;
}

unfoldable pub mark_quota_exhausted :
    String → String → ℕ → Clock → IsolatedPoolManager → IsolatedPoolManager
mark_quota_exhausted pool route_id seconds now s = record s {
  exhausted_quotas =
      Dict.insert (lower pool, lower route_id) (now.epoch + seconds) s.exhausted_quotas;
}

unfoldable pub exhaust_routes :
    String → String → ℕ → List RouteDefinition → Dict (String × String) ℕ → Dict (String × String) ℕ
exhaust_routes pool p until [] quotas = quotas
exhaust_routes pool p until (r ∷ rs) quotas =
    exhaust_routes pool p until rs
      (if lower r.provider == p then Dict.insert (pool, lower r.id) until quotas else quotas)

unfoldable pub mark_provider_quota_exhausted :
    String → String → ℕ → Clock → IsolatedPoolManager → IsolatedPoolManager
unfolding exhaust_routes
mark_provider_quota_exhausted pool provider seconds now s =
    let until = now.epoch + seconds in
    record s {
      account_lockouts = Dict.insert (lower provider) until s.account_lockouts;
      exhausted_quotas =
          exhaust_routes (lower pool) (lower provider) until (routes_of pool s) s.exhausted_quotas;
    }

-- The test of the methods that are for one pool or for all of them.
abbrev pub concerns : Option String → String → Bool
concerns none p = true
concerns (some pool) p = p == lower pool

unfoldable pub clear_cooldown : String → Option String → IsolatedPoolManager → IsolatedPoolManager
clear_cooldown route_id pool s = record s {
  cooldowns =
      keep (λ (e : (String × String) × ℕ). not (e.0.1 == lower route_id && concerns pool e.0.0))
        s.cooldowns;
}

unfoldable pub is_route_in_cooldown : String → String → Clock → IsolatedPoolManager → Bool
is_route_in_cooldown pool route_id now s =
    ltb now.monotonic (or_zero (Dict.lookup (lower pool, lower route_id) s.cooldowns))

unfoldable pub is_provider_in_cooldown : String → String → Clock → IsolatedPoolManager → Bool
unfolding is_route_in_cooldown
is_provider_in_cooldown pool provider now s =
    any (λ r. lower r.provider == lower provider && is_route_in_cooldown pool r.id now s)
      (routes_of pool s)

unfoldable pub is_provider_quota_exhausted : String → Clock → IsolatedPoolManager → Bool
is_provider_quota_exhausted provider now s =
    ltb now.epoch (or_zero (Dict.lookup (lower provider) s.account_lockouts))

unfoldable pub is_route_quota_exhausted :
    String → String → Option String → Clock → IsolatedPoolManager → Bool
is_route_quota_exhausted pool route_id provider now s =
    let route_out =
      ltb now.epoch (or_zero (Dict.lookup (lower pool, lower route_id) s.exhausted_quotas)) in
    elim provider [
      | none ↦ route_out
      | some p ↦
          not (p == "") && ltb now.epoch (or_zero (Dict.lookup (lower p) s.account_lockouts))
          || route_out
    ]

-- Entries that are for the pool and over are dropped.
abbrev pub is_left_in : Option String → ℕ → (String × String) × ℕ → Bool
is_left_in pool now e = not (concerns pool e.0.0 && leb e.1 now)

abbrev pub is_left : ℕ → String × ℕ → Bool
is_left now e = not (leb e.1 now)

unfoldable pub auto_expire_cooldowns :
    Option String → Clock → IsolatedPoolManager → IsolatedPoolManager
auto_expire_cooldowns pool now s = record s {
  cooldowns = keep (is_left_in pool now.monotonic) s.cooldowns;
  exhausted_quotas = keep (is_left_in pool now.epoch) s.exhausted_quotas;
  account_lockouts = keep (is_left now.epoch) s.account_lockouts;
}

abbrev pub has_pair : String × String → List (String × String) → Bool
has_pair k ks = any (λ j. k == j) ks

-- The set's `add`
unfoldable pub mark_deprecated : String → String → IsolatedPoolManager → IsolatedPoolManager
mark_deprecated pool model s =
    let k : String × String = (lower pool, lower model) in
    if has_pair k s.deprecated then s else record s { deprecated = s.deprecated ++ k ∷ [] }

abbrev pub is_allowed : Option (List String) → String → Bool
is_allowed none provider = true
is_allowed (some ps) provider = any (λ p. lower provider == p) ps

abbrev is_empty : List ℕ → Bool
is_empty [] = true
is_empty (c ∷ cs) = false

abbrev pub text_or_empty : Option String → String
text_or_empty none = ""
text_or_empty (some t) = t

abbrev pub has_key : Dict String String → Option String → Bool
has_key keys none = true
has_key keys (some env_key) =
    env_key == "" || not (is_empty (strip (codes (text_or_empty (Dict.lookup env_key keys)))))

-- The filters of `get_candidate_routes`, in their order
unfoldable pub is_candidate : String → Clock → IsolatedPoolManager → RouteDefinition → Bool
unfolding is_route_quota_exhausted
is_candidate pool now s r =
    is_allowed s.allowed_providers r.provider
    && has_key s.keys r.env_key
    && not (has_pair (lower pool, lower r.model) s.deprecated)
    && not (is_route_quota_exhausted pool r.id (some r.provider) now s)
    && not (ltb now.monotonic (or_zero (Dict.lookup (lower pool, lower r.id) s.cooldowns)))

unfoldable pub get_candidate_routes :
    String → Clock → IsolatedPoolManager → List RouteDefinition × IsolatedPoolManager
unfolding is_candidate auto_expire_cooldowns
get_candidate_routes pool now s =
    let s' = auto_expire_cooldowns (some pool) now s in
    (keep (is_candidate pool now s') (routes_of pool s'), s')

unfoldable pub record_route_success :
    String → String → Clock → IsolatedPoolManager → IsolatedPoolManager
record_route_success pool route_id now s = record s {
  last_success = Dict.insert (lower pool) (lower route_id) s.last_success;
  last_success_at = Dict.insert (lower pool) now.monotonic s.last_success_at;
}

-- `min` by the time; of equal ones the first
unfoldable pub earliest_of :
    (String × String) × ℕ → Dict (String × String) ℕ → (String × String) × ℕ
earliest_of e [] = e
earliest_of e (e' ∷ d) = earliest_of (if ltb e'.1 e.1 then e' else e) d

abbrev pub earliest : Dict (String × String) ℕ → Option (String × String)
earliest [] = none
earliest (e ∷ d) = some (earliest_of e d).0

abbrev pub is_of : String → (String × String) × ℕ → Bool
is_of p e = e.0.0 == p

abbrev pub uncool : String × String → IsolatedPoolManager → IsolatedPoolManager
uncool k s = record s { cooldowns = Dict.remove k s.cooldowns }

unfoldable pub retry_without :
    String
    → Clock
    → IsolatedPoolManager
    → Option (String × String)
    → List RouteDefinition × IsolatedPoolManager
unfolding get_candidate_routes
retry_without pool now s none = ([], s)
retry_without pool now s (some k) = get_candidate_routes pool now (uncool k s)

-- With no candidate left the oldest cooldown of the pool is dropped.
unfoldable pub relieve :
    String
    → Clock
    → List RouteDefinition × IsolatedPoolManager
    → List RouteDefinition × IsolatedPoolManager
unfolding retry_without earliest_of
relieve pool now (r ∷ rs, s) = (r ∷ rs, s)
relieve pool now ([], s) =
    retry_without pool now s (earliest (keep (is_of (lower pool)) s.cooldowns))

abbrev pub sticky_affinity : ℕ
sticky_affinity = 120000

abbrev pub find_route : String → List RouteDefinition → Option RouteDefinition
find_route id [] = none
find_route id (r ∷ rs) = elim (lower r.id == id) [ true ↦ some r | false ↦ find_route id rs ]

-- The last route that succeeded, if that was less than two minutes ago and it is a candidate.
unfoldable pub last_route :
    ℕ → Option ℕ → List RouteDefinition → Option String → Option RouteDefinition
last_route now last_at candidates none = none
last_route now last_at candidates (some last_id) =
    if not (last_id == "") && ltb (now - or_zero last_at) sticky_affinity
    then find_route last_id candidates
    else none

unfoldable pub sticky :
    String → Clock → IsolatedPoolManager → List RouteDefinition → Option RouteDefinition
unfolding last_route
sticky pool now s candidates =
    last_route now.monotonic (Dict.lookup (lower pool) s.last_success_at) candidates
      (Dict.lookup (lower pool) s.last_success)

abbrev pub index_of : String → IsolatedPoolManager → ℕ
index_of pool s = if is_coding pool then s.coding_index else s.agent_index

abbrev pub advance : String → ℕ → IsolatedPoolManager → IsolatedPoolManager
advance pool n s =
    if is_coding pool
    then record s { coding_index = (s.coding_index + 1) % n }
    else record s { agent_index = (s.agent_index + 1) % n }

unfoldable pub round_robin :
    String
    → IsolatedPoolManager
    → RouteDefinition
    → List RouteDefinition
    → Option RouteDefinition
    → Option RouteDefinition × IsolatedPoolManager
round_robin pool s r rs (some route) = (some route, s)
round_robin pool s r rs none =
    let n = suc (length rs) in (get_elem? (r ∷ rs) (index_of pool s % n), advance pool n s)

unfoldable pub pick :
    String
    → Clock
    → List RouteDefinition × IsolatedPoolManager
    → Option RouteDefinition × IsolatedPoolManager
unfolding sticky round_robin
pick pool now ([], s) = (none, s)
pick pool now (r ∷ rs, s) = round_robin pool s r rs (sticky pool now s (r ∷ rs))

unfoldable pub select_route :
    String → Clock → IsolatedPoolManager → Option RouteDefinition × IsolatedPoolManager
unfolding get_candidate_routes relieve pick
select_route pool now s = pick pool now (relieve pool now (get_candidate_routes pool now s))

abbrev pub add_route : RouteDefinition → List RouteDefinition → List RouteDefinition
add_route route rs = if any (λ r. r.id == route.id) rs then rs else rs ++ route ∷ []

unfoldable pub add_discovered_route :
    String → RouteDefinition → IsolatedPoolManager → IsolatedPoolManager
add_discovered_route pool route s =
    if is_coding pool
    then record s { coding_routes = add_route route s.coding_routes }
    else record s { agent_routes = add_route route s.agent_routes }

unfoldable pub refresh_keys : Dict String String → IsolatedPoolManager → IsolatedPoolManager
refresh_keys keys s = record s { keys = keys }

-- An entry of the quirks ledger, with the defaults of what is missing
pub record LedgerModel : Type 0 where
  pub model_id : String
  pub status : String
  pub pool : String
  pub context_window : ℕ
  pub max_output_tokens : ℕ

pub record LedgerProvider : Type 0 where
  pub name : String
  pub base_url : String
  pub auth_env : String
  pub models : List LedgerModel

-- `replace('/', '-')`
unfoldable pub dashed : String → String
dashed String.[] = String.[]
dashed (String.◌∷◌ c s) = String.◌∷◌ (if nat_beq (code c) 47 then "-" else c) (dashed s)

unfoldable pub ledger_route : LedgerProvider → LedgerModel → RouteDefinition
unfolding dashed
ledger_route p m = record {
  id = text_append p.name (text_append "-ledger-" (dashed m.model_id));
  provider = p.name;
  model = m.model_id;
  pool = m.pool;
  base_url = p.base_url;
  api_format = "openai";
  env_key = some p.auth_env;
  env_keys = [];
  context_length = m.context_window;
  max_output_tokens = m.max_output_tokens;
  headers = [];
  is_discovered = true;
}

unfoldable pub load_models :
    LedgerProvider → List LedgerModel → IsolatedPoolManager → IsolatedPoolManager
unfolding ledger_route
load_models p [] s = s
load_models p (m ∷ ms) s = load_models p ms (
    if m.status == "deprecated"
    then mark_deprecated m.pool m.model_id s
    else if m.status == "active"
    then add_discovered_route m.pool (ledger_route p m) s
    else s)

unfoldable pub load_from_quirks_ledger :
    List LedgerProvider → IsolatedPoolManager → IsolatedPoolManager
unfolding load_models
load_from_quirks_ledger [] s = s
load_from_quirks_ledger (p ∷ ps) s = load_from_quirks_ledger ps (load_models p p.models s)
