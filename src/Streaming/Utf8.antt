-- ===== src/Streaming/Utf8.antt =====
-- `bytes.decode("utf-8")`: the code points, or none where Python raises `UnicodeDecodeError`.
use durallm.Common.{
  ℕ, ◌+◌, ◌-◌, ◌*◌, ◌&&◌, Option, none, some, List, [], ◌∷◌, leb, ltb, nat_beq, if◌then◌else◌, ◌≡◌,
  refl, ◌++◌, arith,
}

-- A character under way: the bytes that are missing, its value so far, and the range of the next.
pub record Pending : Type 0 where
  pub missing : ℕ
  pub value : ℕ
  pub low : ℕ
  pub high : ℕ

-- The first byte of a character of more than one byte.
lead : ℕ → Option Pending
lead a =
    if leb 194 a && leb a 223
    then some (record { missing = 1; value = a - 192; low = 128; high = 191 })
    else if nat_beq a 224
    then some (record { missing = 2; value = 0; low = 160; high = 191 })
    else if nat_beq a 237
    then some (record { missing = 2; value = 13; low = 128; high = 159 })
    else if leb 225 a && leb a 239
    then some (record { missing = 2; value = a - 224; low = 128; high = 191 })
    else if nat_beq a 240
    then some (record { missing = 3; value = 0; low = 144; high = 191 })
    else if leb 241 a && leb a 243
    then some (record { missing = 3; value = a - 240; low = 128; high = 191 })
    else if nat_beq a 244
    then some (record { missing = 3; value = 4; low = 128; high = 143 })
    else none

-- What one byte does: it completes a character, goes on with one, or is wrong.
pub data Step : Type 0 where
  char : ℕ → Step
  more : Pending → Step
  wrong : Step

begin : Option Pending → Step
begin none = wrong
begin (some p) = more p

advance : Option Pending → ℕ → Step
unfolding lead begin
advance none a = if ltb a 128 then char a else begin (lead a)
advance (some p) a =
    let value = p.value * 64 + (a - 128) in
    if leb p.low a && leb a p.high
    then (if nat_beq p.missing 1
        then char value
        else more (record { missing = p.missing - 1; value = value; low = 128; high = 191 }))
    else wrong

is_between : Option Pending → Option (List ℕ)
is_between none = some []
is_between (some p) = none

prepend : ℕ → Option (List ℕ) → Option (List ℕ)
prepend c none = none
prepend c (some cs) = some (c ∷ cs)

decode_from : Option Pending → List ℕ → Option (List ℕ)
unfolding advance is_between prepend
decode_from p [] = is_between p
decode_from p (a ∷ s) = elim (advance p a) [
  | char c ↦ prepend c (decode_from none s)
  | more q ↦ decode_from (some q) s
  | wrong ↦ none
]

unfoldable pub decode : List ℕ → Option (List ℕ)
unfolding decode_from
decode bytes = decode_from none bytes

prepend-some :
    (c : ℕ) (o : Option (List ℕ)) (cs : List ℕ)
    → prepend c o ≡ some cs
    → (cs' : List ℕ) × (o ≡ some cs') × (cs ≡ c ∷ cs')
unfolding prepend
prepend-some c none cs h = cc
prepend-some c (some cs') cs h = (cs', refl, ground arith)

decode_from-return :
    (p : Option Pending) (s cs : List ℕ)
    → decode_from p s ≡ some cs
    → decode_from p (s ++ 13 ∷ []) ≡ some (cs ++ 13 ∷ [])
unfolding decode_from advance is_between prepend
decode_from-return none [] cs h = ground arith
decode_from-return (some p) [] cs h = cc
decode_from-return p (a ∷ s) cs h = go (advance p a) (λ q cs'. decode_from-return q s cs') h
  where
    go :
        (st : Step)
        → ((q : Option Pending) (cs' : List ℕ)
            → decode_from q s ≡ some cs'
            → decode_from q (s ++ 13 ∷ []) ≡ some (cs' ++ 13 ∷ []))
        → elim st [
          | char c ↦ prepend c (decode_from none s)
          | more q ↦ decode_from (some q) s
          | wrong ↦ none
        ]
          ≡ some cs
        → elim st [
          | char c ↦ prepend c (decode_from none (s ++ 13 ∷ []))
          | more q ↦ decode_from (some q) (s ++ 13 ∷ [])
          | wrong ↦ none
        ]
          ≡ some (cs ++ 13 ∷ [])
    go (char c) ih k =
        let (cs', found, e) = prepend-some c (decode_from none s) cs k in
        rw (ih none cs' found) (rw e refl)
    go (more q) ih k = ih (some q) cs k
    go wrong ih k = cc

-- A carriage return after a text that can be decoded does not change that.
pub decode-return :
    (s cs : List ℕ) → decode s ≡ some cs → decode (s ++ 13 ∷ []) ≡ some (cs ++ 13 ∷ [])
unfolding decode
decode-return s cs h = decode_from-return none s cs h
