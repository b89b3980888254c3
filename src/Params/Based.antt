-- ===== src/Params/Based.antt =====
-- Numbers behind `0x` and `0b` are read at their place value.
use pynq_sdk.Prelude.{
  ℕ, ◌+◌, ◌-◌, ◌*◌, ◌≤◌, ◌<◌, ◌≡◌, ◌⊎◌, refl, true, false, some, leb, ltb, ◌==◌, [], ◌∷◌, arith,
  All, if◌then◌else◌,
}
use pynq_sdk.Python.Text.{Text, is_space, starts_with}
use pynq_sdk.Python.Text.Laws.{NoSpace, strip-NoSpace}
use pynq_sdk.Python.Int.{pos, digit, read_digits, read_prefixed}
use pynq_sdk.Python.Int.RoundTrip.{IsDigit}
use pynq_sdk.Python.Exception.{ok}
use pynq_sdk.Params.{parse_int}

-- a decimal digit, or a letter from A to F of either case
abbrev pub IsHexDigit : ℕ → Type 0
IsHexDigit c = IsDigit c ⊎ (((b'A' ≤ c) × (c ≤ b'F')) ⊎ ((b'a' ≤ c) × (c ≤ b'f')))

abbrev pub digit_value : ℕ → ℕ
digit_value c = if leb c b'9' then c - b'0' else if leb c b'F' then c - b'A' + 10 else c - b'a' + 10

abbrev pub IsDigitOf : ℕ → ℕ → Type 0
IsDigitOf base c = IsHexDigit c × (digit_value c < base)

-- What digits stand for behind a value: each shifts it by one place.
unfoldable pub place_value : ℕ → ℕ → Text → ℕ
place_value base n [] = n
place_value base n (c ∷ s) = place_value base (n * base + digit_value c) s

digit-value : (c : ℕ) → IsHexDigit c → digit c ≡ some (digit_value c)
unfolding digit
digit-value c h = ground arith

not_underscore : (c : ℕ) → IsHexDigit c → (c == b'_') ≡ false
not_underscore c h = ground arith

below : (n base : ℕ) → n < base → ltb n base ≡ true
below n base h = ground arith

read_digits-place_value :
    (base n : ℕ) (s : Text)
    → All (IsDigitOf base) s
    → read_digits base n false s ≡ some (place_value base n s)
unfolding read_digits place_value
read_digits-place_value base n [] h = refl
read_digits-place_value base n (c ∷ s) h = ground (
  arith,
  not_underscore c h.0.0,
  digit-value c h.0.0,
  below (digit_value c) base h.0.1,
  read_digits-place_value base (n * base + digit_value c) s h.1,
)

read_prefixed-place_value :
    (base c : ℕ) (s : Text)
    → All (IsDigitOf base) (c ∷ s)
    → read_prefixed base (c ∷ s) ≡ some (pos (place_value base 0 (c ∷ s)))
unfolding read_prefixed read_digits place_value
read_prefixed-place_value base c s h = ground (
  arith,
  not_underscore c h.0.0,
  digit-value c h.0.0,
  below (digit_value c) base h.0.1,
  read_digits-place_value base (0 * base + digit_value c) s h.1,
)

digits-NoSpace : (base : ℕ) (s : Text) → All (IsDigitOf base) s → NoSpace s
unfolding is_space
digits-NoSpace base [] h = tt
digits-NoSpace base (c ∷ s) h = (ground arith, digits-NoSpace base s h.1)

-- The letters that announce a base.
pub data Announces : ℕ → ℕ → Type 0 where
  small_x : Announces 16 b'x'
  big_x : Announces 16 b'X'
  small_b : Announces 2 b'b'
  big_b : Announces 2 b'B'

-- A number in base 16 or 2 is read at its place value.
pub parse_int-place_value :
    {base letter : ℕ} (c : ℕ) (s : Text)
    → Announces base letter
    → All (IsDigitOf base) (c ∷ s)
    → parse_int (b'0' ∷ letter ∷ c ∷ s) ≡ ok (pos (place_value base 0 (c ∷ s)))
unfolding parse_int starts_with
parse_int-place_value c s small_x h = rw (
  strip-NoSpace (b'0' ∷ b'x' ∷ c ∷ s)
      (unfold is_space in (refl, (refl, digits-NoSpace 16 (c ∷ s) h))),
  read_prefixed-place_value 16 c s h,
)
parse_int-place_value c s big_x h = rw (
  strip-NoSpace (b'0' ∷ b'X' ∷ c ∷ s)
      (unfold is_space in (refl, (refl, digits-NoSpace 16 (c ∷ s) h))),
  read_prefixed-place_value 16 c s h,
)
parse_int-place_value c s small_b h = rw (
  strip-NoSpace (b'0' ∷ b'b' ∷ c ∷ s)
      (unfold is_space in (refl, (refl, digits-NoSpace 2 (c ∷ s) h))),
  read_prefixed-place_value 2 c s h,
)
parse_int-place_value c s big_b h = rw (
  strip-NoSpace (b'0' ∷ b'B' ∷ c ∷ s)
      (unfold is_space in (refl, (refl, digits-NoSpace 2 (c ∷ s) h))),
  read_prefixed-place_value 2 c s h,
)
