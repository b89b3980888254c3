-- ===== src/Python/Int.antt =====
-- Python's `int`: an unbounded integer, its decimal text `str(n)`, and the digits that `int(s, base)`
-- reads after the sign or the prefix (single underscores may stand between digits).
pub mod RoundTrip
use pynq_sdk.Prelude.{
  ℕ, zero, suc, ◌+◌, ◌-◌, ◌*◌, ◌/◌, ◌%◌, Bool, true, false, ◌&&◌, Option, none, some, List, [], ◌∷◌,
  ◌++◌, leb, ltb, ◌==◌, if◌then◌else◌,
}
use pynq_sdk.Python.Text.{Text}

-- `negsuc n` is -(n + 1).
pub data ℤ : Type 0 where
  pos : ℕ → ℤ
  negsuc : ℕ → ℤ

abbrev pub negate : ℕ → ℤ
negate zero = pos 0
negate (suc n) = negsuc n

-- The decimal digits of `n`; fuel above `n` is enough.
unfoldable pub decimal : ℕ → ℕ → Text
decimal zero n = []
decimal (suc f) n =
    let rest = decimal f (n / 10) in
    if ltb n 10 then (b'0' + n) ∷ [] else rest ++ ((b'0' + n % 10) ∷ [])

unfoldable pub str_ℕ : ℕ → Text
unfolding decimal
str_ℕ n = decimal (suc n) n

-- `str(n)`
unfoldable pub str_int : ℤ → Text
unfolding str_ℕ
str_int (pos n) = str_ℕ n
str_int (negsuc n) = b'-' ∷ str_ℕ (suc n)

unfoldable pub digit : ℕ → Option ℕ
digit c =
    if leb b'0' c && leb c b'9'
    then some (c - b'0')
    else if leb b'a' c && leb c b'z'
    then some (c - b'a' + 10)
    else if leb b'A' c && leb c b'Z'
    then some (c - b'A' + 10)
    else none

-- The value so far, and whether a digit must come next.
abbrev digit_step : ℕ → ℕ → Bool → ℕ → Option (ℕ × Bool)
digit_step base acc due c =
    if c == b'_' then (if due then none else some (acc, true)) else elim (digit c) [
      | none ↦ none
      | some d ↦ if ltb d base then some (acc * base + d, false) else none
    ]

unfoldable pub read_digits : ℕ → ℕ → Bool → Text → Option ℕ
unfolding digit
read_digits base acc due [] = if due then none else some acc
read_digits base acc due (c ∷ s) = elim (digit_step base acc due c) [
  | none ↦ none
  | some (acc', due') ↦ read_digits base acc' due' s
]

-- `int(s)` of a stripped text: a sign, then digits
unfoldable pub read_decimal : Text → Option ℤ
unfolding read_digits
read_decimal [] = none
read_decimal (c ∷ s) =
    if c == b'-'
    then elim (read_digits 10 0 true s) [ none ↦ none | some n ↦ some (negate n) ]
    else if c == b'+'
    then elim (read_digits 10 0 true s) [ none ↦ none | some n ↦ some (pos n) ]
    else elim (read_digits 10 0 true (c ∷ s)) [ none ↦ none | some n ↦ some (pos n) ]

-- `int(s, base)` behind a prefix such as `0x`, which one underscore may follow
unfoldable pub read_prefixed : ℕ → Text → Option ℤ
unfolding read_digits
read_prefixed base [] = none
read_prefixed base (c ∷ s) = elim (read_digits base 0 true (if c == b'_' then s else c ∷ s)) [
  | none ↦ none
  | some n ↦ some (pos n)
]

-- `n & 0xFF`, of the two's complement of a negative number
unfoldable pub low_byte : ℤ → ℕ
low_byte (pos n) = n % 256
low_byte (negsuc n) = 255 - n % 256
