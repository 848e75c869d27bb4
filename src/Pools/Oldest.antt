-- ===== src/Pools/Oldest.antt =====
-- The cooldown that `select_route` of durallm/pools.py drops when no candidate is left.
use mathlib.Core.Path.{subst}
use durallm.Common.{
  ℕ, ◌≤◌, ◌≡◌, refl, sym, ap, inl, inr, Bool, true, false, some, String, [], ◌∷◌, keep, ltb,
  if◌then◌else◌, string_eq, pair_eq, eq_iff, arith, Bool-cases, Among, Among-keep, if_both,
}
use durallm.Common.Dict.{Dict}
use durallm.Pools.Manager.{lower, is_of, earliest, earliest_of}

-- A cooldown of the pool, and none of the pool's ends earlier.
pub record IsOldest (pool : String) (e : (String × String) × ℕ) (d : Dict (String × String) ℕ)
    : Type 0 where
  pub present : Among e d
  pub its_own : e.0.0 ≡ lower pool
  pub ends_first :
      (other : (String × String) × ℕ) → Among other d → other.0.0 ≡ lower pool → e.1 ≤ other.1

earliest_of-Among :
    (e : (String × String) × ℕ) (d : Dict (String × String) ℕ) → Among (earliest_of e d) (e ∷ d)
unfolding earliest_of
earliest_of-Among e [] = inl refl
earliest_of-Among e (e' ∷ d) =
    if_both (λ b. Among (earliest_of b d) (e ∷ e' ∷ d)) (ltb e'.1 e.1)
      (inr (earliest_of-Among e' d))
      (elim (earliest_of-Among e d) [ inl same ↦ inl same | inr m ↦ inr (inr m) ])

earliest_of-le :
    (e other : (String × String) × ℕ) (d : Dict (String × String) ℕ)
    → Among other (e ∷ d)
    → (earliest_of e d).1 ≤ other.1
unfolding earliest_of
earliest_of-le e other [] (inl same) = rw (ap (λ x. x.1) same) (omega arith)
earliest_of-le e other [] (inr none_left) = absurd none_left
earliest_of-le e other (e' ∷ d) m =
    let best = if ltb e'.1 e.1 then e' else e in
    let first_le : (earliest_of best d).1 ≤ best.1 = earliest_of-le best best d (inl refl) in
    let best_e : best.1 ≤ e.1 = ground arith in
    let best_e' : best.1 ≤ e'.1 = ground arith in
    elim m [
      | inl same ↦ let t = ap (λ x. x.1) same in omega arith
      | inr (inl same) ↦ let t = ap (λ x. x.1) same in omega arith
      | inr (inr later) ↦ earliest_of-le best other d (inr later)
    ]

keep-Among :
    (p : (String × String) × ℕ → Bool) (x : (String × String) × ℕ) (d : Dict (String × String) ℕ)
    → Among x d
    → p x ≡ true
    → Among x (keep p d)
keep-Among p x [] m t = absurd m
keep-Among p x (y ∷ d) m t =
    let at : Bool → Type 0 = λ b. Among x (elim b [ true ↦ y ∷ keep p d | false ↦ keep p d ]) in
    elim m [
      | inl same ↦ subst at (sym (subst (λ z. p z ≡ true) (sym same) t)) (inl same)
      | inr later ↦ elim (Bool-cases (p y)) [
        | inl e ↦ subst at (sym e) (inr (keep-Among p x d later t))
        | inr e ↦ subst at (sym e) (keep-Among p x d later t)
      ]
    ]

-- What `min` finds is the oldest cooldown of the pool.
pub earliest-IsOldest :
    (pool : String) (d : Dict (String × String) ℕ) (k : String × String)
    → earliest (keep (is_of (lower pool)) d) ≡ some k
    → (e : (String × String) × ℕ) × (e.0 ≡ k) × IsOldest pool e d
earliest-IsOldest pool d k h = least (keep (is_of (lower pool)) d) refl h
  where
    least :
        (own : Dict (String × String) ℕ)
        → keep (is_of (lower pool)) d ≡ own
        → earliest own ≡ some k
        → (e : (String × String) × ℕ) × (e.0 ≡ k) × IsOldest pool e d
    least [] same h' = cc
    least (x ∷ own) same h' =
        let e = earliest_of x own in
        let (m, t) =
          Among-keep (is_of (lower pool)) e d
            (subst (Among e) (sym same) (earliest_of-Among x own)) in
        (
          e,
          cc,
          record {
            present = m;
            its_own = (eq_iff e.0.0 (lower pool)).0 t;
            ends_first = λ other at own_too. earliest_of-le x other own (
                subst (Among other) same (
                  keep-Among (is_of (lower pool)) other d at
                    ((eq_iff other.0.0 (lower pool)).1 own_too)));
          },
        )
