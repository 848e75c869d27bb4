-- ===== src/Common/Lists.antt =====
-- Lists measured by native numbers, and predicates on all their elements.
use Prim.Native.Nat.{ℕ, zero, suc, ◌+◌, ◌-◌, ◌≤◌, ◌<◌}
use mathlib.Core.Path.{◌≡◌, refl, ap, subst}
use mathlib.Core.Logic.{◌⊎◌, inl, inr}
use durallm.Common.Tests.{Bool-cases}
use mathlib.Core.Bool.{Bool, true, false, ◌&&◌, ◌||◌}
use mathlib.Core.Option.{Option, none, some}
use mathlib.Core.List.{List, [], ◌∷◌, ◌++◌}
use native.Mathlib.Omega.{arith}

module _ {ℓ} {A : Type ℓ} where
  abbrev pub length : List A → ℕ
  length [] = 0
  length (x ∷ xs) = suc (length xs)

  abbrev pub get_elem? : List A → ℕ → Option A
  get_elem? [] i = none
  get_elem? (x ∷ xs) zero = some x
  get_elem? (x ∷ xs) (suc i) = get_elem? xs i

  abbrev pub drop : ℕ → List A → List A
  drop zero xs = xs
  drop (suc n) [] = []
  drop (suc n) (x ∷ xs) = drop n xs

  -- The last `n` elements.
  abbrev pub last : ℕ → List A → List A
  last n xs = drop (length xs - n) xs

  pub length-drop : (n : ℕ) (xs : List A) → length (drop n xs) ≡ length xs - n
  length-drop zero xs = omega arith
  length-drop (suc n) [] = omega arith
  length-drop (suc n) (x ∷ xs) = omega (arith, length-drop n xs)

  pub length-append : (xs ys : List A) → length (xs ++ ys) ≡ length xs + length ys
  length-append [] ys = omega arith
  length-append (x ∷ xs) ys = omega (arith, length-append xs ys)

  pub get_elem?-lt : (xs : List A) (i : ℕ) → i < length xs → (a : A) × (get_elem? xs i ≡ some a)
  get_elem?-lt [] i h = elim h [ ]
  get_elem?-lt (x ∷ xs) zero h = (x, refl)
  get_elem?-lt (x ∷ xs) (suc i) h = get_elem?-lt xs i (omega arith)

  -- `any(p(x) for x in xs)` and `all(p(x) for x in xs)`
  abbrev pub any : (A → Bool) → List A → Bool
  any p [] = false
  any p (x ∷ xs) = p x || any p xs

  abbrev pub all : (A → Bool) → List A → Bool
  all p [] = true
  all p (x ∷ xs) = p x && all p xs

  -- A predicate that holds of every element.
  abbrev pub All {κ} : (A → Type κ) → List A → Type κ
  All P [] = Unit
  All P (x ∷ xs) = P x × All P xs

  pub All-append {κ} : (P : A → Type κ) (xs ys : List A) → All P xs → All P ys → All P (xs ++ ys)
  All-append P [] ys hx hy = hy
  All-append P (x ∷ xs) ys hx hy = (hx.0, All-append P xs ys hx.1 hy)

  -- `[x for x in xs if p(x)]`
  abbrev pub keep : (A → Bool) → List A → List A
  keep p [] = []
  keep p (x ∷ xs) = elim (p x) [ true ↦ x ∷ keep p xs | false ↦ keep p xs ]

  -- How many elements pass a test.
  abbrev pub count_by : (A → Bool) → List A → ℕ
  count_by p [] = 0
  count_by p (x ∷ xs) = elim (p x) [ true ↦ suc (count_by p xs) | false ↦ count_by p xs ]

  pub count_by-le-length : (p : A → Bool) (xs : List A) → count_by p xs ≤ length xs
  count_by-le-length p [] = omega arith
  count_by-le-length p (x ∷ xs) = ground (arith, count_by-le-length p xs)

module _ {A : Type 0} where
  -- The element stands in the list.
  abbrev pub Among : A → List A → Type 0
  Among x [] = ⊥
  Among x (y ∷ ys) = (y ≡ x) ⊎ Among x ys

  get_elem?-cons :
      (y x : A) (ys : List A) (i : ℕ)
      → get_elem? (y ∷ ys) i ≡ some x
      → (y ≡ x) ⊎ ((i' : ℕ) × (get_elem? ys i' ≡ some x))
  get_elem?-cons y x ys zero h = inl (ap (λ o. elim o [ none ↦ y | some z ↦ z ]) h)
  get_elem?-cons y x ys (suc i) h = inr (i, h)

  pub get_elem?-keep :
      (p : A → Bool) (xs : List A) (i : ℕ) (x : A)
      → get_elem? (keep p xs) i ≡ some x
      → Among x xs × (p x ≡ true)
  get_elem?-keep p [] i x h = cc
  get_elem?-keep p (y ∷ ys) i x h =
      let at : Bool → Type 0 =
        λ b. get_elem? (elim b [ true ↦ y ∷ keep p ys | false ↦ keep p ys ]) i ≡ some x in
      elim (Bool-cases (p y)) [
        | inr e ↦ let (m, t) = get_elem?-keep p ys i x (subst at e h) in (inr m, t)
        | inl e ↦ elim (get_elem?-cons y x (keep p ys) i (subst at e h)) [
          | inl same ↦ (inl same, subst (λ z. p z ≡ true) same e)
          | inr (i', h') ↦ let (m, t) = get_elem?-keep p ys i' x h' in (inr m, t)
        ]
      ]

  pub get_elem?-Among : (xs : List A) (i : ℕ) (x : A) → get_elem? xs i ≡ some x → Among x xs
  get_elem?-Among [] i x h = cc
  get_elem?-Among (y ∷ ys) zero x h = inl (ap (λ o. elim o [ none ↦ y | some z ↦ z ]) h)
  get_elem?-Among (y ∷ ys) (suc i) x h = inr (get_elem?-Among ys i x h)

  pub keep-none : (p : A → Bool) (xs : List A) → keep p xs ≡ [] → any p xs ≡ false
  keep-none p [] h = refl
  keep-none p (y ∷ ys) h = ground (arith, keep-none p ys)

  pub Among-keep :
      (p : A → Bool) (x : A) (xs : List A) → Among x (keep p xs) → Among x xs × (p x ≡ true)
  Among-keep p x [] h = absurd h
  Among-keep p x (y ∷ ys) h =
      let at : Bool → Type 0 = λ b. Among x (elim b [ true ↦ y ∷ keep p ys | false ↦ keep p ys ]) in
      elim (Bool-cases (p y)) [
        | inr e ↦ let (m, t) = Among-keep p x ys (subst at e h) in (inr m, t)
        | inl e ↦ elim (subst at e h) [
          | inl same ↦ (inl same, subst (λ z. p z ≡ true) same e)
          | inr later ↦ let (m, t) = Among-keep p x ys later in (inr m, t)
        ]
      ]

  pub count_by-le :
      (p q : A → Bool) (xs : List A)
      → ((y : A) → q y ≡ true → p y ≡ true)
      → count_by q xs ≤ count_by p xs
  count_by-le p q [] sub = omega arith
  count_by-le p q (y ∷ ys) sub = ground (arith, sub y, count_by-le p q ys sub)

  -- One more element that passes raises the count.
  pub count_by-lt :
      (p q : A → Bool) (x : A) (xs : List A)
      → ((y : A) → q y ≡ true → p y ≡ true)
      → Among x xs
      → p x ≡ true
      → q x ≡ false
      → count_by q xs < count_by p xs
  count_by-lt p q x [] sub h px qx = absurd h
  count_by-lt p q x (y ∷ ys) sub (inl same) px qx =
      let py : p y ≡ true = rw same px in
      let qy : q y ≡ false = rw same qx in ground (arith, count_by-le p q ys sub)
  count_by-lt p q x (y ∷ ys) sub (inr later) px qx =
      ground (arith, sub y, count_by-lt p q x ys sub later px qx)
