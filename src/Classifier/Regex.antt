-- ===== src/Classifier/Regex.antt =====
-- The part of Python's `re` that the classifier uses: literals, classes of characters, their greedy
-- and lazy repetition, alternatives and groups, searched by backtracking from the left. A text is the
-- list of its code points.
use durallm.Common.Text.{after_prefix}
use durallm.Common.{
  ℕ, zero, suc, ◌-◌, ◌+◌, ◌*◌, ◌++◌, Bool, true, false, ◌&&◌, Option, none, some, List, [], ◌∷◌,
  length, leb,
}
use durallm.Classifier.Model.{or_else}

pub data Regex : Type 0 where
  literal : List ℕ → Regex
  one : (ℕ → Bool) → Regex
  many : (ℕ → Bool) → Regex
  fewest : (ℕ → Bool) → Regex
  alternatives : Regex → Regex → Regex
  group : Regex → Regex
  then_ : Regex → Regex → Regex

-- The groups that a match has captured, in order.
abbrev pub Groups : Type 0
Groups = List (List ℕ)

greedy : (ℕ → Bool) → List ℕ → (List ℕ → Option Groups) → Option Groups
greedy p [] k = k []
greedy p (c ∷ s) k = elim (p c) [ true ↦ or_else (greedy p s k) (k (c ∷ s)) | false ↦ k (c ∷ s) ]

lazy : (ℕ → Bool) → List ℕ → (List ℕ → Option Groups) → Option Groups
lazy p [] k = k []
lazy p (c ∷ s) k = or_else (k (c ∷ s)) (elim (p c) [ true ↦ lazy p s k | false ↦ none ])

-- The first `n` elements.
prefix_of : ℕ → List ℕ → List ℕ
prefix_of n [] = []
prefix_of n (c ∷ s) = elim n [ zero ↦ [] | suc m ↦ c ∷ prefix_of m s ]

unfoldable pub match_at :
    Regex → List ℕ → Groups → (List ℕ → Groups → Option Groups) → Option Groups
unfolding after_prefix greedy lazy prefix_of
match_at (literal ps) s gs k = elim (after_prefix ps s) [ none ↦ none | some rest ↦ k rest gs ]
match_at (one p) [] gs k = none
match_at (one p) (c ∷ s) gs k = elim (p c) [ true ↦ k s gs | false ↦ none ]
match_at (many p) s gs k = greedy p s (λ rest. k rest gs)
match_at (fewest p) s gs k = lazy p s (λ rest. k rest gs)
match_at (alternatives a b) s gs k = or_else (match_at a s gs k) (match_at b s gs k)
match_at (group r) s gs k =
    match_at r s gs (λ rest gs'. k rest (gs' ++ prefix_of (length s - length rest) s ∷ []))
match_at (then_ a b) s gs k = match_at a s gs (λ rest gs'. match_at b rest gs' k)

-- `re.search`: the groups of the first match.
unfoldable pub search_groups : Regex → List ℕ → Option Groups
unfolding match_at
search_groups r [] = match_at r [] [] (λ rest gs. some gs)
search_groups r (c ∷ s) = or_else (match_at r (c ∷ s) [] (λ rest gs. some gs)) (search_groups r s)

abbrev pub is_digit : ℕ → Bool
is_digit c = leb b'0' c && leb c b'9'

-- `int`, on digits
abbrev pub to_number : ℕ → List ℕ → ℕ
to_number acc [] = acc
to_number acc (d ∷ ds) = to_number (acc * 10 + (d - b'0')) ds
