-- ===== src/Routing/Keys.antt =====
-- durallm/routing/keys.py, `KeyRotationPool`, on the candidate keys of an endpoint, which
-- `get_candidate_keys` reads from the configuration. Times are in milliseconds.
use durallm.Common.{
  ℕ, suc, ◌+◌, ◌%◌, ◌<◌, ◌≡◌, inl, refl, sym, Bool, true, false, Option, none, some, String, List,
  [], ◌∷◌, leb, max, if◌then◌else◌, string_eq, arith, any, keep, length, get_elem?, get_elem?-lt,
  if_split, Among, get_elem?-keep, keep-none,
}
use durallm.Common.Dict
use durallm.Common.Dict.{Dict}
use mathlib.Core.Path.{subst}
use native.Mathlib.Nat.{mod-lt}

pub record KeyRotationPool : Type 0 where
  pub key_cooldowns : Dict String ℕ
  pub rr_indices : Dict String ℕ

-- `.get(key, 0)`
abbrev pub or_zero : Option ℕ → ℕ
or_zero none = 0
or_zero (some n) = n

-- The key is not in cooldown.
unfoldable pub cooled : KeyRotationPool → ℕ → String × String → Bool
cooled s now (val, kid) = leb (or_zero (Dict.lookup kid s.key_cooldowns)) now

-- The key that is due among the available ones, and the index after it.
unfoldable pub rotate :
    String → List (String × String) → KeyRotationPool → Option (String × String) × KeyRotationPool
rotate endpoint_id [] s = (none, s)
rotate endpoint_id (k ∷ ks) s =
    let n = suc (length ks) in
    let curr_idx = or_zero (Dict.lookup endpoint_id s.rr_indices) in
    (
      get_elem? (k ∷ ks) (curr_idx % n),
      record s { rr_indices = Dict.insert endpoint_id ((curr_idx + 1) % n) s.rr_indices },
    )

-- `none` where the source returns no key value.
unfoldable pub get_active_key :
    String
    → List (String × String)
    → ℕ
    → KeyRotationPool
    → Option (String × String) × KeyRotationPool
unfolding cooled rotate
get_active_key endpoint_id [] now s = (none, s)
get_active_key endpoint_id (k ∷ []) now s = (if cooled s now k then some k else none, s)
get_active_key endpoint_id (k ∷ k' ∷ ks) now s =
    rotate endpoint_id (keep (cooled s now) (k ∷ k' ∷ ks)) s

-- A cooldown is at least a second, and a minute where the provider names none.
unfoldable pub record_rate_limit : String → Option ℕ → ℕ → KeyRotationPool → KeyRotationPool
record_rate_limit key_identifier none now s = record s {
  key_cooldowns = Dict.insert key_identifier (now + 60000) s.key_cooldowns;
}
record_rate_limit key_identifier (some cooldown) now s = record s {
  key_cooldowns = Dict.insert key_identifier (now + max 1000 cooldown) s.key_cooldowns;
}

-- What `get_active_key` promises: a candidate that is not in cooldown, if there is one.
abbrev pub Chosen :
    (String × String → Bool) → List (String × String) → Option (String × String) → Type 0
Chosen p ks none = any p ks ≡ false
Chosen p ks (some k) = Among k ks × (p k ≡ true)

small : (n m : ℕ) → n % suc m < suc m
small n m = mod-lt n (omega arith)

rotate-Chosen :
    (endpoint_id : String) (p : String × String → Bool) (ks av : List (String × String))
    (s : KeyRotationPool)
    → keep p ks ≡ av
    → Chosen p ks (rotate endpoint_id av s).0
unfolding rotate
rotate-Chosen endpoint_id p ks [] s e = keep-none p ks e
rotate-Chosen endpoint_id p ks (a ∷ as') s e =
    let i = or_zero (Dict.lookup endpoint_id s.rr_indices) % suc (length as') in
    let (k, found) : (k : String × String) × (get_elem? (a ∷ as') i ≡ some k) =
      get_elem?-lt (a ∷ as') i
        (small (or_zero (Dict.lookup endpoint_id s.rr_indices)) (length as')) in
    subst (Chosen p ks) (sym found)
      (get_elem?-keep p ks i k (subst (λ x. get_elem? x i ≡ some k) (sym e) found))

-- Whatever the rotation's state, `get_active_key` returns a candidate that is not in cooldown, and
-- it returns none only when every candidate is in cooldown.
pub get_active_key-Chosen :
    (endpoint_id : String) (candidates : List (String × String)) (now : ℕ) (s : KeyRotationPool)
    → Chosen (cooled s now) candidates (get_active_key endpoint_id candidates now s).0
unfolding get_active_key cooled
get_active_key-Chosen endpoint_id [] now s = refl
get_active_key-Chosen endpoint_id (k ∷ []) now s =
    if_split (Chosen (cooled s now) (k ∷ [])) (cooled s now k) (λ t. (inl refl, t))
      (λ f. ground arith)
get_active_key-Chosen endpoint_id (k ∷ k' ∷ ks) now s =
    rotate-Chosen endpoint_id (cooled s now) (k ∷ k' ∷ ks) _ s refl
