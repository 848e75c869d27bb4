-- ===== src/Execution/Executor/Ensures.antt =====
-- What a part of a round ensures of the value it goes on with, of the loop's variables where the
-- round ends by `continue`, and of those where `execute` ends.
use durallm.Execution.Executor.Model.{
  Progress, End, Flow, goes_on, continues, responds, raises, ◌>>=◌,
}

module _ (R X : Progress → Type 0) where
  abbrev pub Ensures : {A : Type 0} → (A → Type 0) → Flow A → Type 0
  Ensures Q (goes_on a) = Q a
  Ensures Q (continues s) = R s
  Ensures Q (responds s) = X s
  Ensures Q (raises e s) = X s

  -- For a part that ends the round
  abbrev pub EndsIn : End → Type 0
  EndsIn = Ensures (λ none_left. Unit {0})

  pub Ensures-bind :
      {A B : Type 0} (P : A → Type 0) (Q : B → Type 0) (m : Flow A) (f : A → Flow B)
      → Ensures P m
      → ((a : A) → P a → Ensures Q (f a))
      → Ensures Q (m >>= f)
  Ensures-bind P Q (goes_on a) f h k = k a h
  Ensures-bind P Q (continues s) f h k = h
  Ensures-bind P Q (responds s) f h k = h
  Ensures-bind P Q (raises e s) f h k = h

pub EndsIn-map :
    {R R' X X' : Progress → Type 0} (m : End)
    → ((s : Progress) → R s → R' s)
    → ((s : Progress) → X s → X' s)
    → EndsIn R X m
    → EndsIn R' X' m
EndsIn-map (goes_on a) r x h = h
EndsIn-map (continues s) r x h = r s h
EndsIn-map (responds s) r x h = x s h
EndsIn-map (raises e s) r x h = x s h
