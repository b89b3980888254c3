-- ===== src/Python/Json/Shorter.antt =====
-- What the tokens of `json.loads` leave of a text.
use pynq_sdk.Prelude.{
  ℕ, suc, ◌+◌, ◌≤◌, ◌<◌, ◌≡◌, Bool, true, false, Bool-cases, inl, inr, Option, none, some, List, [],
  ◌∷◌, ◌++◌, arith, All, length, ◌==◌,
}
use pynq_sdk.Python.Text.{Text}
use pynq_sdk.Python.Json.{Json}
use pynq_sdk.Python.Json.Scan.{
  Move, Parsed, parsed, malformed, out_of_fuel, and_then, skip_blanks, Place, between, ends, goes,
  fails, move, read_units, read_string,
}
use pynq_sdk.Python.Json.Numbers.{
  with_digits, span_digits, whole_part, sign_part, fraction_part, exponent_sign, exponent_part,
  number_rest, read_number, after, constant_or, constants, constant_or_number, read_atom,
}
use pynq_sdk.Python.Json.Loads.{expect, separator, closing, read_key}

-- A reader that did not run out of fuel, and left less than `n` characters.
abbrev pub Leaves {ℓ} : {A : Type ℓ} → ℕ → Parsed A → Type 0
Leaves n (parsed a rest) = length rest < n
Leaves n malformed = Unit {0}
Leaves n out_of_fuel = false ≡ true

pub Leaves-weaker {ℓ} : {A : Type ℓ} (m n : ℕ) (p : Parsed A) → m ≤ n → Leaves m p → Leaves n p
Leaves-weaker m n (parsed a rest) h l = omega arith
Leaves-weaker m n malformed h l = tt
Leaves-weaker m n out_of_fuel h l = l

module _ {ℓ κ} {A : Type ℓ} {B : Type κ} where
  pub Leaves-and_then :
      (m n : ℕ) (p : Parsed A) (k : A → Text → Parsed B)
      → Leaves m p
      → ((a : A) (rest : Text) → length rest < m → Leaves n (k a rest))
      → Leaves n (and_then p k)
  Leaves-and_then m n (parsed a rest) k h step = step a rest h
  Leaves-and_then m n malformed k h step = tt
  Leaves-and_then m n out_of_fuel k h step = absurd cc

pub length-skip_blanks : (s : Text) → length (skip_blanks s) ≤ length s
unfolding skip_blanks
length-skip_blanks [] = omega arith
length-skip_blanks (c ∷ s) = ground (arith, length-skip_blanks s)

abbrev units_after : Text → (Place → Parsed (List ℕ)) → Move → Parsed (List ℕ)
units_after s more m = elim m [
  | ends ↦ parsed [] s
  | goes q units ↦ and_then (more q) λ others rest. parsed (units ++ others) rest
  | fails ↦ malformed
]

Leaves-read_units : (p : Place) (s : Text) → Leaves (length s) (read_units p s)
unfolding read_units
Leaves-read_units p [] = tt
Leaves-read_units p (c ∷ s) =
    elim (move p c) as (λ m. Leaves (suc (length s)) (units_after s (λ q. read_units q s) m)) [
      | ends ↦ omega arith
      | goes q units ↦
          Leaves-and_then _ _ (read_units q s) _ (Leaves-read_units q s) λ more rest h. omega arith
      | fails ↦ tt
    ]

pub Leaves-read_string : (s : Text) → Leaves (length s) (read_string s)
unfolding read_string
Leaves-read_string s =
    Leaves-and_then _ _ (read_units between s) _ (Leaves-read_units between s) λ _ _ h. h

length-span_digits : (s : Text) → length (span_digits s).0 + length (span_digits s).1 ≡ length s
unfolding span_digits
length-span_digits [] = omega arith
length-span_digits (c ∷ s) = ground (arith, length-span_digits s)

length-whole_part : (s : Text) → length (whole_part s).0 + length (whole_part s).1 ≡ length s
unfolding whole_part
length-whole_part [] = omega arith
length-whole_part (c ∷ s) = ground (arith, length-span_digits (c ∷ s))

length-sign_part : (s : Text) → length (sign_part s).1 ≤ length s
unfolding sign_part
length-sign_part [] = omega arith
length-sign_part (c ∷ s) = ground arith

length-with_digits :
    (prefix whole : Text) (d : Text × Text)
    → length d.1 ≤ length whole
    → length (with_digits prefix whole d).1 ≤ length whole
length-with_digits prefix whole ([], rest) h = omega arith
length-with_digits prefix whole (d ∷ ds, rest) h = h

length-fraction_part : (s : Text) → length (fraction_part s).1 ≤ length s
unfolding fraction_part
length-fraction_part [] = omega arith
length-fraction_part (c ∷ s) =
    ground (arith, length-with_digits (c ∷ []) (c ∷ s) (span_digits s), length-span_digits s)

length-exponent_sign : (s : Text) → length (exponent_sign s).1 ≤ length s
unfolding exponent_sign
length-exponent_sign [] = omega arith
length-exponent_sign (c ∷ s) = ground arith

length-exponent_part : (s : Text) → length (exponent_part s).1 ≤ length s
unfolding exponent_part
length-exponent_part [] = omega arith
length-exponent_part (c ∷ s) =
    let e = exponent_sign s in
    ground (
      arith,
      length-with_digits (c ∷ e.0) (c ∷ s) (span_digits e.1),
      length-span_digits e.1,
      length-exponent_sign s,
    )

Leaves-number_rest :
    (n : ℕ) (sign whole : Text) (f : Text × Text)
    → length f.1 + length whole ≤ n
    → Leaves n (number_rest sign whole f)
Leaves-number_rest n sign [] f h = tt
Leaves-number_rest n sign (d ∷ ds) (fraction, rest) h = omega (arith, length-exponent_part rest)

Leaves-read_number : (s : Text) → Leaves (length s) (read_number s)
unfolding read_number
Leaves-read_number s =
    let sign = sign_part s in
    let whole = whole_part sign.1 in
    Leaves-number_rest (length s) sign.0 whole.0 (fraction_part whole.1)
      (omega (arith, length-sign_part s, length-whole_part sign.1, length-fraction_part whole.1))

-- a text behind a prefix, if there is one
abbrev pub Behind : ℕ → Option Text → Type 0
Behind n none = Unit {0}
Behind n (some rest) = length rest < n

Behind-suc : (n : ℕ) (o : Option Text) → Behind n o → Behind (suc n) o
Behind-suc n none h = tt
Behind-suc n (some rest) h = omega arith

after-Behind : (p : ℕ) (ps s : Text) → Behind (length s) (after (p ∷ ps) s)
unfolding after
after-Behind p ps [] = tt
after-Behind p [] (c ∷ s) = elim (Bool-cases (p == c)) [
  | inl same ↦ rw same (omega arith)
  | inr other ↦ rw other tt
]
after-Behind p (q ∷ ps) (c ∷ s) = elim (Bool-cases (p == c)) [
  | inl same ↦ rw same (Behind-suc (length s) (after (q ∷ ps) s) (after-Behind q ps s))
  | inr other ↦ rw other tt
]

Leaves-constant_or :
    (n : ℕ) (j : Json) (o : Option Text) (p : Parsed Json)
    → Behind n o
    → Leaves n p
    → Leaves n (constant_or j o p)
Leaves-constant_or n j none p h other = other
Leaves-constant_or n j (some rest) p h other = h

-- No name of a constant is empty.
abbrev IsNamed : Text × Json → Type 0
IsNamed ([], j) = false ≡ true
IsNamed (p ∷ ps, j) = Unit {0}

Leaves-constant_or_number :
    (table : List (Text × Json)) (s : Text)
    → All IsNamed table
    → Leaves (length s) (constant_or_number table s)
unfolding constant_or_number
Leaves-constant_or_number [] s named = Leaves-read_number s
Leaves-constant_or_number (([], j) ∷ more) s named = absurd cc
Leaves-constant_or_number ((p ∷ ps, j) ∷ more) s named =
    Leaves-constant_or (length s) j (after (p ∷ ps) s) (constant_or_number more s)
      (after-Behind p ps s) (Leaves-constant_or_number more s named.1)

pub Leaves-read_atom : (s : Text) → Leaves (length s) (read_atom s)
unfolding read_atom
Leaves-read_atom s = Leaves-constant_or_number constants s (tt, (tt, (tt, (tt, (tt, (tt, tt))))))

Leaves-expect : (p : ℕ) (s : Text) → Leaves (length s) (expect p s)
unfolding expect
Leaves-expect p [] = tt
Leaves-expect p (c ∷ s) = elim (Bool-cases (c == p)) [
  | inl same ↦ rw same (omega arith)
  | inr other ↦ rw other tt
]

pub Leaves-separator : (first : Bool) (s : Text) → Leaves (suc (length s)) (separator first s)
unfolding separator
Leaves-separator true s = omega arith
Leaves-separator false s =
    Leaves-and_then _ _ (expect b',' s) _ (Leaves-expect b',' s)
      λ _ rest h. omega (arith, length-skip_blanks rest)

pub Leaves-read_key : (s : Text) → Leaves (length s) (read_key s)
unfolding read_key
Leaves-read_key s = Leaves-and_then _ _ (expect b'"' s) _ (Leaves-expect b'"' s) λ _ rest h.
    Leaves-and_then _ _ (read_string rest) _ (Leaves-read_string rest) λ k rest' h'.
      Leaves-and_then _ _ (expect b':' (skip_blanks rest')) _
        (Leaves-expect b':' (skip_blanks rest'))
        λ _ rest'' h''. omega (arith, length-skip_blanks rest', length-skip_blanks rest'')

pub closing-Behind : (p : ℕ) (s : Text) → Behind (length s) (closing p s)
unfolding closing
closing-Behind p [] = tt
closing-Behind p (c ∷ s) = elim (Bool-cases (c == p)) [
  | inl same ↦ rw same (omega arith)
  | inr other ↦ rw other tt
]
