-- ===== src/Python/Json/Scan.antt =====
-- The tokens of `json.loads`: blanks, strings and numbers. What is decoded is ASCII, so a surrogate
-- comes from an escape.
use pynq_sdk.Prelude.{
  ℕ, zero, suc, ◌+◌, ◌-◌, ◌*◌, Bool, ◌&&◌, ◌||◌, Option, none, some, List, [], ◌∷◌, ◌++◌, ltb, leb,
  ◌==◌, if◌then◌else◌,
}
use pynq_sdk.Python.Text.{Text}

-- What a reader made of a text: a value and what follows it, a `JSONDecodeError`, or no fuel left.
pub data Parsed {ℓ} (A : Type ℓ) : Type ℓ where
  parsed : A → Text → Parsed A
  malformed : Parsed A
  out_of_fuel : Parsed A

module _ {ℓ κ} {A : Type ℓ} {B : Type κ} where
  abbrev pub and_then : Parsed A → (A → Text → Parsed B) → Parsed B
  and_then (parsed a rest) k = k a rest
  and_then malformed k = malformed
  and_then out_of_fuel k = out_of_fuel

unfoldable pub is_blank : ℕ → Bool
is_blank c = c == b' ' || c == b'\t' || c == b'\n' || c == b'\r'

unfoldable pub skip_blanks : Text → Text
unfolding is_blank
skip_blanks [] = []
skip_blanks (c ∷ s) = if is_blank c then skip_blanks s else c ∷ s

unfoldable pub hex_value : ℕ → Option ℕ
hex_value c =
    if leb b'0' c && leb c b'9'
    then some (c - b'0')
    else if leb b'a' c && leb c b'f'
    then some (c - b'a' + 10)
    else if leb b'A' c && leb c b'F'
    then some (c - b'A' + 10)
    else none

-- the character behind a backslash
unfoldable pub unescape : ℕ → Option ℕ
unescape c =
    if c == b'"' || c == b'\\' || c == b'/'
    then some c
    else if c == b'n'
    then some b'\n'
    else if c == b'r'
    then some b'\r'
    else if c == b't'
    then some b'\t'
    else if c == b'f'
    then some 12
    else if c == b'b'
    then some 8
    else none

-- Where the reader stands in a string: between characters, behind a backslash, or in the digits of
-- an escape, with how many are due and the value so far.
pub data Place : Type 0 where
  between : Place
  escaped : Place
  digits : ℕ → ℕ → Place

-- One character: the end of the string, or the next place with the code unit that is complete.
pub data Move : Type 0 where
  ends : Move
  goes : Place → List ℕ → Move
  fails : Move

abbrev escape_move : Option ℕ → Move
escape_move none = fails
escape_move (some c) = goes between (c ∷ [])

abbrev digit_move : ℕ → ℕ → Option ℕ → Move
digit_move due value none = fails
digit_move zero value (some d) = goes between ((value * 16 + d) ∷ [])
digit_move (suc due) value (some d) = goes (digits due (value * 16 + d)) []

unfoldable pub move : Place → ℕ → Move
unfolding unescape hex_value
move between c =
    if c == b'"'
    then ends
    else if c == b'\\'
    then goes escaped []
    else if ltb c 32
    then fails
    else goes between (c ∷ [])
move escaped c = if c == b'u' then goes (digits 3 0) [] else escape_move (unescape c)
move (digits due value) c = digit_move due value (hex_value c)

-- The code units up to the closing quote.
unfoldable pub read_units : Place → Text → Parsed (List ℕ)
unfolding move
read_units p [] = malformed
read_units p (c ∷ s) = elim (move p c) [
  | ends ↦ parsed [] s
  | goes q units ↦ and_then (read_units q s) λ more rest. parsed (units ++ more) rest
  | fails ↦ malformed
]

unfoldable pub is_high : ℕ → Bool
is_high c = leb 0xd800 c && ltb c 0xdc00

unfoldable pub is_low : ℕ → Bool
is_low c = leb 0xdc00 c && ltb c 0xe000

-- A high surrogate and the low one behind it are one character; `pending` is the former.
unfoldable pub join_units : Option ℕ → List ℕ → Text
unfolding is_high is_low
join_units none [] = []
join_units none (c ∷ s) = if is_high c then join_units (some c) s else c ∷ join_units none s
join_units (some h) [] = h ∷ []
join_units (some h) (c ∷ s) =
    if is_low c
    then (0x1_0000 + (h - 0xd800) * 1024 + (c - 0xdc00)) ∷ join_units none s
    else h ∷ (if is_high c then join_units (some c) s else c ∷ join_units none s)

-- the text behind an opening quote
unfoldable pub read_string : Text → Parsed Text
unfolding read_units join_units
read_string s = and_then (read_units between s) λ units rest. parsed (join_units none units) rest
