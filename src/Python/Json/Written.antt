-- ===== src/Python/Json/Written.antt =====
-- An integer that `dumps` wrote is read back.
use pynq_sdk.Prelude.{
  ℕ, zero, suc, ◌+◌, ◌/◌, ◌%◌, ◌≤◌, ◌<◌, ◌≡◌, ◌≢◌, refl, ap, ◌∙◌, true, Bool-cases, inl, inr, some,
  [], ◌∷◌, ◌++◌, arith, All, ltb,
}
use pynq_sdk.Python.Text.{Text}
use pynq_sdk.Python.Int.{ℤ, pos, negsuc, str_ℕ, str_int, decimal, read_digits}
use pynq_sdk.Python.Int.RoundTrip.{IsDigit, str_ℕ-IsDigit, str_ℕ_ne_nil, read_digits-str_ℕ}
use pynq_sdk.Python.Json.{json_int}
use pynq_sdk.Python.Json.Scan.{parsed}
use pynq_sdk.Python.Json.Numbers.{
  is_digit, span_digits, whole_part, sign_part, fraction_part, exponent_part, number_rest,
  read_number, after, signed, constant_or_number, read_atom,
}

-- A text that begins with another digit than zero.
record Leads (s : Text) : Type 0 where
  first : ℕ
  others : Text
  shape : s ≡ first ∷ others
  positive : first ≢ b'0'

Leads-append : {s : Text} (t : Text) → Leads s → Leads (s ++ t)
Leads-append t l = record {
  first = l.first;
  others = l.others ++ t;
  shape = ap (λ s. s ++ t) l.shape;
  positive = l.positive;
}

decimal-Leads : (f n : ℕ) → 1 ≤ n → n < f → Leads (decimal f n)
unfolding decimal
decimal-Leads zero n pos_n h = absurd (omega arith)
decimal-Leads (suc f) n pos_n h = elim (Bool-cases (ltb n 10)) [
  | inl small ↦
      rw small (record { first = b'0' + n; others = []; shape = refl; positive = omega arith })
  | inr large ↦
      rw large (
        Leads-append ((b'0' + n % 10) ∷ []) (decimal-Leads f (n / 10) (ground arith) (omega arith)))
]

span_digits-IsDigit : (s : Text) → All IsDigit s → span_digits s ≡ (s, [])
unfolding span_digits is_digit
span_digits-IsDigit [] h = refl
span_digits-IsDigit (c ∷ s) h = ground (arith, span_digits-IsDigit s h.1)

whole_part-Leads : (s : Text) → All IsDigit s → Leads s → whole_part s ≡ (s, [])
unfolding whole_part
whole_part-Leads [] h l = refl
whole_part-Leads (c ∷ s) h l =
    let ne : c ≢ b'0' = λ e. l.positive (ground (arith, l.shape)) in
    ground (arith, span_digits-IsDigit (c ∷ s) h)

whole_part-str_ℕ : (n : ℕ) → whole_part (str_ℕ n) ≡ (str_ℕ n, [])
whole_part-str_ℕ zero = unfold whole_part str_ℕ in refl
whole_part-str_ℕ (suc n) =
    whole_part-Leads (str_ℕ (suc n)) (str_ℕ-IsDigit (suc n))
      (unfold str_ℕ in decimal-Leads (suc (suc n)) (suc n) (omega arith) (omega arith))

-- The digits of `n` behind a sign, or none.
number_rest-str_ℕ :
    (sign : Text) (n : ℕ)
    → number_rest sign (whole_part (str_ℕ n)).0 (fraction_part (whole_part (str_ℕ n)).1)
      ≡ parsed (json_int (signed sign n)) []
unfolding fraction_part exponent_part
number_rest-str_ℕ sign n =
    rw (whole_part-str_ℕ n) (by_digits (str_ℕ n) (str_ℕ_ne_nil n) (read_digits-str_ℕ n))
  where
    by_digits :
        (s : Text)
        → s ≢ []
        → read_digits 10 0 true s ≡ some n
        → number_rest sign s ([], []) ≡ parsed (json_int (signed sign n)) []
    by_digits [] ne e = absurd (ne refl)
    by_digits (c ∷ s) ne e = rw e refl

read_number-digits :
    (s : Text)
    → All IsDigit s
    → read_number s ≡ number_rest [] (whole_part s).0 (fraction_part (whole_part s).1)
unfolding read_number sign_part
read_number-digits [] h = refl
read_number-digits (c ∷ s) h = ground arith

read_atom-digits : (s : Text) → All IsDigit s → read_atom s ≡ read_number s
unfolding read_atom constant_or_number after
read_atom-digits [] h = refl
read_atom-digits (c ∷ s) h = ground arith

read_atom-minus : (s : Text) → All IsDigit s → read_atom (b'-' ∷ s) ≡ read_number (b'-' ∷ s)
unfolding read_atom constant_or_number after
read_atom-minus [] h = refl
read_atom-minus (c ∷ s) h = ground arith

pub read_atom-str_int : (n : ℤ) → read_atom (str_int n) ≡ parsed (json_int n) []
unfolding str_int
read_atom-str_int (pos n) =
    read_atom-digits (str_ℕ n) (str_ℕ-IsDigit n)
    ∙ read_number-digits (str_ℕ n) (str_ℕ-IsDigit n)
    ∙ number_rest-str_ℕ [] n
read_atom-str_int (negsuc n) =
    read_atom-minus (str_ℕ (suc n)) (str_ℕ-IsDigit (suc n))
    ∙ unfold read_number sign_part in number_rest-str_ℕ (b'-' ∷ []) (suc n)
