-- ===== src/Common/Text.antt =====
-- Texts as lists of code points, and what Python's `str` does with them.
use Prim.Native.Char.{code}
use Prim.Native.Nat.{ℕ}
use Prim.Native.String.{String}
use durallm.Common.Lists.{any}
use durallm.Common.Tests.{leb, nat_beq}
use mathlib.Core.Bool.{Bool, true, false, ◌&&◌, ◌||◌}
use mathlib.Core.Option.{Option, none, some}
use mathlib.Core.List.{List, [], ◌∷◌, ◌++◌}

abbrev pub codes : String → List ℕ
codes String.[] = []
codes (String.◌∷◌ c s) = code c ∷ codes s

-- `str.isspace`
abbrev pub is_blank : ℕ → Bool
is_blank c =
    (leb 9 c && leb c 13)
    || (leb 28 c && leb c 32)
    || any (nat_beq c) (133 ∷ 160 ∷ 5760 ∷ [])
    || (leb 8192 c && leb c 8202)
    || any (nat_beq c) (8232 ∷ 8233 ∷ 8239 ∷ 8287 ∷ 12288 ∷ [])

-- What is left after a prefix.
unfoldable pub after_prefix : List ℕ → List ℕ → Option (List ℕ)
after_prefix [] s = some s
after_prefix (p ∷ ps) [] = none
after_prefix (p ∷ ps) (c ∷ s) = elim (nat_beq p c) [ true ↦ after_prefix ps s | false ↦ none ]

unfoldable pub lstrip : List ℕ → List ℕ
lstrip [] = []
lstrip (c ∷ s) = elim (is_blank c) [ true ↦ lstrip s | false ↦ c ∷ s ]

-- A text of blanks only is stripped as a whole.
stripped_tail : ℕ → List ℕ → List ℕ
stripped_tail c [] = elim (is_blank c) [ true ↦ [] | false ↦ c ∷ [] ]
stripped_tail c (d ∷ s) = c ∷ d ∷ s

unfoldable pub rstrip : List ℕ → List ℕ
unfolding stripped_tail
rstrip [] = []
rstrip (c ∷ s) = stripped_tail c (rstrip s)

unfoldable pub strip : List ℕ → List ℕ
unfolding lstrip rstrip
strip s = rstrip (lstrip s)

-- `"\n".join`
unfoldable pub join_lines : List (List ℕ) → List ℕ
join_lines [] = []
join_lines (l ∷ []) = l
join_lines (l ∷ m ∷ ls) = l ++ (10 ∷ join_lines (m ∷ ls))
