-- ===== src/Python/Int/RoundTrip.antt =====
-- `int` reads back what `str` prints.
use pynq_sdk.Prelude.{
  ℕ, zero, suc, ◌+◌, ◌-◌, ◌*◌, ◌/◌, ◌%◌, ◌≤◌, ◌<◌, ◌≡◌, ◌≢◌, refl, ◌∙◌, ap, inl, inr, true, false,
  Bool-cases, ltb, ltb→lt, some, List, [], ◌∷◌, ◌++◌, arith, All, All-append,
}
use pynq_sdk.Python.Text.{Text}
use pynq_sdk.Python.Int.{decimal, str_ℕ, str_int, read_digits, read_decimal, ℤ, pos, negsuc}

abbrev pub IsDigit : ℕ → Type 0
IsDigit c = (b'0' ≤ c) × (c ≤ b'9')

decimal_value : ℕ → Text → ℕ
decimal_value acc [] = acc
decimal_value acc (c ∷ s) = decimal_value (acc * 10 + (c - b'0')) s

decimal_value-append :
    (s : Text) (acc c : ℕ) → decimal_value acc (s ++ c ∷ []) ≡ decimal_value acc s * 10 + (c - b'0')
unfolding decimal_value
decimal_value-append [] acc c = refl
decimal_value-append (d ∷ s) acc c = decimal_value-append s (acc * 10 + (d - b'0')) c

read_digits-IsDigit :
    (s : Text) (acc : ℕ) → All IsDigit s → read_digits 10 acc false s ≡ some (decimal_value acc s)
unfolding read_digits decimal_value
read_digits-IsDigit [] acc h = refl
read_digits-IsDigit (c ∷ s) acc h =
    ground (arith, read_digits-IsDigit s (acc * 10 + (c - b'0')) h.1)

-- The first digit may be due.
read_digits_due :
    (s : Text) → All IsDigit s → s ≢ [] → read_digits 10 0 true s ≡ some (decimal_value 0 s)
unfolding read_digits decimal_value
read_digits_due [] h ne = absurd (ne refl)
read_digits_due (c ∷ s) h ne = ground (arith, read_digits-IsDigit s (c - b'0') h.1)

decimal-IsDigit : (f n : ℕ) → All IsDigit (decimal f n)
unfolding decimal
decimal-IsDigit zero n = tt
decimal-IsDigit (suc f) n = elim (Bool-cases (ltb n 10)) [
  | inl small ↦ rw small ((omega arith, omega (arith, ltb→lt n 10 small)), tt)
  | inr large ↦
      rw large
        (All-append IsDigit (decimal f (n / 10)) _ (decimal-IsDigit f (n / 10)) (omega arith))
]

decimal_value-decimal : (f n : ℕ) → n < f → decimal_value 0 (decimal f n) ≡ n
unfolding decimal decimal_value
decimal_value-decimal zero n h = absurd (omega arith)
decimal_value-decimal (suc f) n h = elim (Bool-cases (ltb n 10)) [
  | inl small ↦ rw small (omega arith)
  | inr large ↦ rw large (
      decimal_value-append (decimal f (n / 10)) 0 (b'0' + n % 10)
      ∙ ground (arith, decimal_value-decimal f (n / 10)))
]

append_ne_nil {ℓ} : {A : Type ℓ} (xs : List A) (x : A) → xs ++ x ∷ [] ≢ []
append_ne_nil [] x h = cc
append_ne_nil (y ∷ xs) x h = cc

decimal_ne_nil : (f n : ℕ) → decimal (suc f) n ≢ []
unfolding decimal
decimal_ne_nil f n = elim (Bool-cases (ltb n 10)) [
  | inl small ↦ rw small (λ e. cc)
  | inr large ↦ rw large (append_ne_nil (decimal f (n / 10)) (b'0' + n % 10))
]

pub str_ℕ-IsDigit : (n : ℕ) → All IsDigit (str_ℕ n)
unfolding str_ℕ
str_ℕ-IsDigit n = decimal-IsDigit (suc n) n

pub str_ℕ_ne_nil : (n : ℕ) → str_ℕ n ≢ []
unfolding str_ℕ
str_ℕ_ne_nil n = decimal_ne_nil n n

pub read_digits-str_ℕ : (n : ℕ) → read_digits 10 0 true (str_ℕ n) ≡ some n
read_digits-str_ℕ n =
    read_digits_due (str_ℕ n) (str_ℕ-IsDigit n) (str_ℕ_ne_nil n)
    ∙ ap some (unfold str_ℕ in decimal_value-decimal (suc n) n (omega arith))

-- A text of digits has no sign.
read_decimal-IsDigit :
    (s : Text)
    → All IsDigit s
    → s ≢ []
    → {n : ℕ} → read_digits 10 0 true s ≡ some n
    → read_decimal s ≡ some (pos n)
unfolding read_decimal
read_decimal-IsDigit [] h ne r = absurd (ne refl)
read_decimal-IsDigit (c ∷ s) h ne r = ground arith

pub read_decimal-str_int : (n : ℤ) → read_decimal (str_int n) ≡ some n
unfolding str_int
read_decimal-str_int (pos n) =
    read_decimal-IsDigit (str_ℕ n) (str_ℕ-IsDigit n) (str_ℕ_ne_nil n) (read_digits-str_ℕ n)
read_decimal-str_int (negsuc n) = unfold read_decimal in rw (read_digits-str_ℕ (suc n))
