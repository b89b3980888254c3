-- ===== src/Python/Json/Strings.antt =====
-- A string that `dumps` wrote is read back.
use mathlib.Core.List.{append_assoc}
use pynq_sdk.Prelude.{
  ℕ, suc, ◌+◌, ◌-◌, ◌*◌, ◌/◌, ◌%◌, ◌≤◌, ◌<◌, ◌≡◌, refl, ap, ◌∙◌, Bool, true, false, ◌||◌,
  Bool-cases, inl, inr, ◌⊎◌, none, some, List, [], ◌∷◌, ◌++◌, arith, All, ◌==◌, ◌&&◌, ltb→lt, leb,
  ltb, if◌then◌else◌,
}
use pynq_sdk.Python.Text.{Text}
use pynq_sdk.Python.Exception.{hex_digit}
use pynq_sdk.Python.Json.{hex4, json_char, json_chars}
use pynq_sdk.Python.Json.Scan.{
  Parsed, parsed, and_then, Place, goes, escaped, between, digits, hex_value, unescape, move,
  read_units, is_high, is_low, join_units, read_string,
}

-- A code point that is no surrogate.
abbrev pub IsScalar : ℕ → Type 0
IsScalar c = (c < 0xd800) ⊎ ((0xe000 ≤ c) × (c < 0x11_0000))

hex_value-hex_digit : (n : ℕ) → n < 16 → hex_value (hex_digit n) ≡ some n
unfolding hex_value hex_digit
hex_value-hex_digit n h = ground arith

abbrev then_units : List ℕ → Parsed (List ℕ) → Parsed (List ℕ)
then_units units p = and_then p λ more rest. parsed (units ++ more) rest

-- One character, with the unit it completes, or with none.
read_units-goes :
    (p q : Place) (c : ℕ) (units : List ℕ) (t : Text)
    → move p c ≡ goes q units
    → read_units p (c ∷ t) ≡ then_units units (read_units q t)
unfolding read_units
read_units-goes p q c units t e = rw (read_units, e) refl

read_units_silent :
    (p q : Place) (c : ℕ) (t : Text) → move p c ≡ goes q [] → read_units p (c ∷ t) ≡ read_units q t
read_units_silent p q c t e = read_units-goes p q c [] t e ∙ same (read_units q t)
  where
    same : (r : Parsed (List ℕ)) → then_units [] r ≡ r
    same (parsed a rest) = refl
    same Parsed.malformed = refl
    same Parsed.out_of_fuel = refl

move-hex_digit :
    (n due value : ℕ)
    → n < 16
    → move (digits (suc due) value) (hex_digit n) ≡ goes (digits due (value * 16 + n)) []
unfolding move
move-hex_digit n due value h = rw (hex_value-hex_digit n h) refl

move-last_digit :
    (n value : ℕ)
    → n < 16
    → move (digits 0 value) (hex_digit n) ≡ goes between ((value * 16 + n) ∷ [])
unfolding move
move-last_digit n value h = rw (hex_value-hex_digit n h) refl

backslash : move between b'\\' ≡ goes escaped []
unfolding move
backslash = refl

read_units-hex4 :
    (c : ℕ) (t : Text)
    → c < 0x1_0000
    → read_units between (hex4 c ++ t) ≡ then_units (c ∷ []) (read_units between t)
unfolding hex4
read_units-hex4 c t h =
    let value : ((((0 * 16 + c / 4096 % 16) * 16 + c / 256 % 16) * 16 + c / 16 % 16) * 16 + c % 16)
        ≡ c =
      omega arith in
    read_units_silent between escaped _ _ backslash
    ∙ read_units_silent escaped (digits 3 0) _ _ letter
    ∙ read_units_silent _ _ _ _ (move-hex_digit (c / 4096 % 16) 2 0 (omega arith))
    ∙ read_units_silent _ _ _ _ (move-hex_digit (c / 256 % 16) 1 _ (omega arith))
    ∙ read_units_silent _ _ _ _ (move-hex_digit (c / 16 % 16) 0 _ (omega arith))
    ∙ read_units-goes _ between _ _ t (move-last_digit (c % 16) _ (omega arith))
    ∙ ap (λ v. then_units (v ∷ []) (read_units between t)) value
  where
    letter : move escaped b'u' ≡ goes (digits 3 0) []
    letter = unfold move in refl

abbrev high : ℕ → ℕ
high c = 0xd800 + (c - 0x1_0000) / 1024

abbrev low : ℕ → ℕ
low c = 0xdc00 + (c - 0x1_0000) % 1024

-- How `dumps` shows a character: with a backslash, as it is, or as one or two code units.
data Shown : ℕ → Text → Type 0 where
  short :
      {c e : ℕ} → c < 0x1_0000 → move escaped e ≡ goes between (c ∷ []) → Shown c (b'\\' ∷ e ∷ [])
  plain : {c : ℕ} → c < 0x1_0000 → move between c ≡ goes between (c ∷ []) → Shown c (c ∷ [])
  unit : {c : ℕ} → c < 0x1_0000 → Shown c (hex4 c)
  pair : {c : ℕ} → 0x1_0000 ≤ c → Shown c (hex4 (high c) ++ hex4 (low c))

either :
    {c : ℕ} {s t : Text} (b : Bool)
    → (b ≡ true → Shown c s)
    → (b ≡ false → Shown c t)
    → Shown c (if b then s else t)
either true hit miss = hit refl
either false hit miss = miss refl

json_char-Shown : (c : ℕ) → Shown c (json_char c)
unfolding json_char move unescape
json_char-Shown c =
    either (c == b'"' || c == b'\\') (λ h. short (ground arith) (ground arith))
      λ h1.
        either (c == b'\n') (λ h. short (ground arith) (ground arith))
          λ h2.
            either (c == b'\r') (λ h. short (ground arith) (ground arith))
              λ h3.
                either (c == b'\t') (λ h. short (ground arith) (ground arith))
                  λ h4.
                    either (c == 12) (λ h. short (ground arith) (ground arith))
                      λ h5.
                        either (c == 8) (λ h. short (ground arith) (ground arith))
                          λ h6.
                            either (leb 32 c && leb c 126)
                              (λ h. plain (ground arith) (ground arith))
                              λ h7.
                                either (ltb c 0x1_0000) (λ h. unit (ltb→lt c 0x1_0000 h))
                                  λ h8. pair (ground arith)

-- the code units that a code point is written by
abbrev units_of : ℕ → List ℕ
units_of c = if ltb c 0x1_0000 then c ∷ [] else high c ∷ low c ∷ []

-- One character of a string, and then the others.
join_units-units_of :
    (c : ℕ) (more : List ℕ)
    → IsScalar c
    → join_units none (units_of c ++ more) ≡ c ∷ join_units none more
unfolding join_units
join_units-units_of c more h = elim (Bool-cases (ltb c 0x1_0000)) [
  | inl small ↦
      let single : is_high c ≡ false = unfold is_high in ground arith in rw (small, single) refl
  | inr large ↦
      let first : is_high (high c) ≡ true = unfold is_high in ground arith in
      let second : is_low (low c) ≡ true = unfold is_low in ground arith in
      let value : 0x1_0000 + (high c - 0xd800) * 1024 + (low c - 0xdc00) ≡ c = ground arith in
      rw (large, first, second, value) refl
]

then_units-then_units :
    (us vs : List ℕ) (p : Parsed (List ℕ))
    → then_units us (then_units vs p) ≡ then_units (us ++ vs) p
then_units-then_units us vs (parsed a rest) = rw (append_assoc us vs a) refl
then_units-then_units us vs Parsed.malformed = refl
then_units-then_units us vs Parsed.out_of_fuel = refl

units_of_small : (c : ℕ) → c < 0x1_0000 → units_of c ≡ c ∷ []
units_of_small c h = ground arith

units_of_large : (c : ℕ) → 0x1_0000 ≤ c → units_of c ≡ high c ∷ low c ∷ []
units_of_large c h = ground arith

read_units-Shown :
    (c : ℕ) (shown t : Text)
    → c < 0x11_0000
    → Shown c shown
    → read_units between (shown ++ t) ≡ then_units (units_of c) (read_units between t)
read_units-Shown c _ t h (short small e) = rw (units_of_small c small) (
    read_units_silent between escaped _ _ backslash
    ∙ read_units-goes escaped between _ (c ∷ []) t e)
read_units-Shown c _ t h (plain small e) =
    rw (units_of_small c small) (read_units-goes between between c (c ∷ []) t e)
read_units-Shown c _ t h (unit small) = rw (units_of_small c small) (read_units-hex4 c t small)
read_units-Shown c _ t h (pair large) =
    rw (units_of_large c large, append_assoc (hex4 (high c)) (hex4 (low c)) t)
      (read_units-hex4 (high c) (hex4 (low c) ++ t) (omega arith)
        ∙ ap (then_units (high c ∷ [])) (read_units-hex4 (low c) t (omega arith))
        ∙ then_units-then_units (high c ∷ []) (low c ∷ []) (read_units between t))

units : Text → List ℕ
units [] = []
units (c ∷ s) = units_of c ++ units s

read_units-json_chars :
    (s rest : Text)
    → All IsScalar s
    → read_units between (json_chars s ++ b'"' ∷ rest) ≡ parsed (units s) rest
unfolding json_chars units
read_units-json_chars [] rest h = unfold read_units move in refl
read_units-json_chars (c ∷ s) rest h =
    rw (append_assoc (json_char c) (json_chars s) (b'"' ∷ rest)) (
      read_units-Shown c (json_char c) (json_chars s ++ b'"' ∷ rest) (omega (arith, h.0))
        (json_char-Shown c)
      ∙ ap (then_units (units_of c)) (read_units-json_chars s rest h.1))

join_units-units : (s : Text) → All IsScalar s → join_units none (units s) ≡ s
unfolding units
join_units-units [] h = unfold join_units in refl
join_units-units (c ∷ s) h =
    join_units-units_of c (units s) h.0 ∙ ap (◌∷◌ c) (join_units-units s h.1)

-- The characters of a string, read up to the quote behind them.
pub read_string-json_chars :
    (s rest : Text) → All IsScalar s → read_string (json_chars s ++ b'"' ∷ rest) ≡ parsed s rest
unfolding read_string
read_string-json_chars s rest h = rw (read_units-json_chars s rest h, join_units-units s h) refl
