-- ===== src/Classifier/Numbers.antt =====
-- The numbers that durallm/classifier.py reads from a message: the limits of tokens and the delays. The
-- message is in lower case. `\d` is an ASCII digit.
use durallm.Common.{
  ℕ, ◌*◌, Bool, true, false, not, ◌||◌, Option, none, some, String, List, [], ◌∷◌, ltb, nat_beq,
  any, if◌then◌else◌,
}
use durallm.Common.Text.{codes, is_blank}
use durallm.Classifier.Model.{Delay, or_else}
use durallm.Classifier.Phrases.{contains}
use durallm.Classifier.Regex.{
  Regex, literal, one, many, fewest, alternatives, group, then_, is_digit, to_number, search_groups,
  Groups,
}

abbrev seq : List Regex → Regex
seq [] = literal []
seq (r ∷ rs) = then_ r (seq rs)

abbrev word : String → Regex
word s = literal (codes s)

abbrev maybe : Regex → Regex
maybe r = alternatives r (literal [])

-- `+`
abbrev some_of : (ℕ → Bool) → Regex
some_of p = then_ (one p) (many p)

abbrev blanks : Regex
blanks = many is_blank

abbrev digits : Regex
digits = some_of is_digit

-- One of the three quotation marks.
abbrev is_quote : ℕ → Bool
is_quote c = any (nat_beq c) (96 ∷ 39 ∷ 34 ∷ [])

abbrev is_char : ℕ → ℕ → Bool
is_char c d = nat_beq c d

-- `int(m.group(1))`
abbrev pub first_number : Option Groups → Option ℕ
first_number (some (g ∷ gs)) = some (to_number 0 g)
first_number _ = none

abbrev pub search : Regex → String → Option Groups
search r msg = search_groups r (codes msg)

unfoldable pub parse_input_tpm_limit : String → Option ℕ
unfolding contains search_groups
parse_input_tpm_limit msg =
    or_else
      (first_number (
        search
          (seq (
            alternatives (word "input tokens per minute") (alternatives (word "itpm") (word "tpm"))
            ∷ many (λ c. not (is_digit c))
            ∷ word "limit"
            ∷ blanks
            ∷ group digits
            ∷ []))
          msg))
      (if contains "token" msg || contains "tpm" msg || contains "request too large" msg
        then first_number (
            search
              (seq (
                word "limit"
                ∷ blanks
                ∷ group digits
                ∷ word ","
                ∷ blanks
                ∷ word "requested"
                ∷ blanks
                ∷ digits
                ∷ []))
              msg)
        else none)

-- `limit\s*(\d+).*?requested\s*(\d+)`
abbrev pub both_numbers : Option Groups → Option (ℕ × ℕ)
both_numbers (some (g ∷ h ∷ gs)) = some (to_number 0 g, to_number 0 h)
both_numbers _ = none

unfoldable pub limit_and_requested : String → Option (ℕ × ℕ)
unfolding search_groups
limit_and_requested msg = both_numbers (
    search
      (seq (
        word "limit"
        ∷ blanks
        ∷ group digits
        ∷ fewest (λ c. not (nat_beq c 10))
        ∷ word "requested"
        ∷ blanks
        ∷ group digits
        ∷ []))
      msg)

-- `float`, on digits and points: at most one point, and a digit.
read_decimal : ℕ → ℕ → Bool → List ℕ → Option Delay
read_decimal num den seen [] = some (record { num = num; den = den })
read_decimal num den seen (c ∷ cs) =
    let digit = read_decimal (to_number num (c ∷ [])) (if seen then den * 10 else den) seen cs in
    let point = read_decimal num den true cs in
    if is_digit c then digit else if seen then none else point

unfoldable pub to_float : List ℕ → Option Delay
unfolding read_decimal
to_float cs = if any is_digit cs then read_decimal 0 1 false cs else none

abbrev pub first_float : Option Groups → Option Delay
first_float (some (g ∷ gs)) = to_float g
first_float _ = none

-- `max(0.1, x)`
abbrev at_least_tenth : Option Delay → Option Delay
at_least_tenth none = none
at_least_tenth (some d) = some (if ltb (d.num * 10) d.den then record { num = 1; den = 10 } else d)

unfoldable pub parse_retry_after_from_body : String → Option Delay
unfolding search_groups to_float
parse_retry_after_from_body msg = at_least_tenth (
    first_float (
      search
        (seq (
          word "try again in"
          ∷ some_of is_blank
          ∷ group (some_of (λ c. is_digit c || nat_beq c b'.'))
          ∷ blanks
          ∷ word "s"
          ∷ []))
        msg))

-- `try again in (\d+(?:\.\d+)?)s?`
unfoldable pub wait_in_message : String → Option Delay
unfolding search_groups to_float
wait_in_message msg = first_float (
    search
      (seq (
        word "try again in "
        ∷ group (then_ digits (maybe (then_ (word ".") digits)))
        ∷ maybe (word "s")
        ∷ []))
      msg)

-- The five searches of `parse_output_cap_from_error`, in their order.
unfoldable pub parse_output_cap_from_error : String → Option ℕ
unfolding contains search_groups
parse_output_cap_from_error msg =
    let number : List Regex → Option ℕ = λ rs. first_number (search (seq rs) msg) in
    or_else
      (number (
        alternatives (word "output tokens per minute") (word "otpm")
        ∷ many (λ c. not (is_digit c))
        ∷ word "limit"
        ∷ blanks
        ∷ group digits
        ∷ []))
      (or_else
        (number (
          word "max_tokens"
          ∷ maybe (one is_quote)
          ∷ some_of is_blank
          ∷ word "must be less than or equal to"
          ∷ some_of is_blank
          ∷ maybe (one is_quote)
          ∷ group digits
          ∷ []))
        (or_else
          (if contains "max_tokens" msg || contains "token" msg
            then number (
                word "less than or equal to"
                ∷ some_of is_blank
                ∷ maybe (one is_quote)
                ∷ group digits
                ∷ [])
            else none)
          (or_else
            (number (
              word "range of max_tokens should be"
              ∷ blanks
              ∷ word "["
              ∷ blanks
              ∷ digits
              ∷ blanks
              ∷ word ","
              ∷ blanks
              ∷ group digits
              ∷ blanks
              ∷ word "]"
              ∷ []))
            (or_else
              (number (
                word "exceeds model"
                ∷ maybe (word "'s")
                ∷ word " maximum output tokens"
                ∷ blanks
                ∷ maybe (word "(")
                ∷ blanks
                ∷ group digits
                ∷ blanks
                ∷ maybe (word ")")
                ∷ []))
              (number (
                word "available"
                ∷ some_of (λ c. is_char c b'_' || is_blank c)
                ∷ word "tokens"
                ∷ some_of (λ c. is_char c b':' || is_blank c)
                ∷ group digits
                ∷ []))))))
