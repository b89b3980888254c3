-- ===== src/Python/Exception.antt =====
-- Exceptions as values. `message` is the argument that the exception was built with.
use pynq_sdk.Prelude.{
  ◌≡◌, refl, ℕ, ◌+◌, ◌-◌, ◌/◌, ◌%◌, Bool, true, false, not, ◌&&◌, ◌||◌, [], ◌∷◌, ◌++◌, ltb, leb,
  ◌==◌, if◌then◌else◌,
}
use pynq_sdk.Python.Text.{Text, Bytes, lit}

pub data Kind : Type 0 where
  value_error type_error key_error runtime_error timeout_error incomplete_read struct_error
        other_error :
      Kind

pub record Exception : Type 0 where
  pub kind : Kind
  pub message : Text

pub data Result {ℓ} (A : Type ℓ) : Type ℓ where
  ok : A → Result A
  raised : Exception → Result A

abbrev pub raise {ℓ} : {A : Type ℓ} → Kind → Text → Result A
raise kind message = raised (record { kind = kind; message = message })

module _ {ℓ κ} {A : Type ℓ} {B : Type κ} where
  infixl 10 ◌>>=◌
  -- An exception ends the statements that follow it.
  abbrev pub ◌>>=◌ : Result A → (A → Result B) → Result B
  raised e >>= k = raised e
  ok value >>= k = k value

  -- Two statements that both went through, with the value that the first one left.
  pub record Completes (m : Result A) (k : A → Result B) (result : B) : Type (ℓ ⊔ κ) where
    pub value : A
    pub first : m ≡ ok value
    pub second : k value ≡ ok result

  pub >>=-Completes :
      (m : Result A) (k : A → Result B) {result : B} → (m >>= k) ≡ ok result → Completes m k result
  >>=-Completes (raised e) k done = cc
  >>=-Completes (ok value) k done = record { value = value; first = refl; second = done }

contains : ℕ → Text → Bool
contains c [] = false
contains c (d ∷ s) = c == d || contains c s

unfoldable pub hex_digit : ℕ → ℕ
hex_digit n = if ltb n 10 then b'0' + n else b'a' + (n - 10)

-- One character of a `repr` between quotes `q`: the escapes of ASCII, and of high bytes.
repr_char : Bool → ℕ → ℕ → Text
unfolding hex_digit
repr_char is_bytes q c =
    if c == q || c == b'\\'
    then b'\\' ∷ c ∷ []
    else if c == b'\t'
    then lit "\\t"
    else if c == b'\n'
    then lit "\\n"
    else if c == b'\r'
    then lit "\\r"
    else if ltb c 32 || c == 127 || (is_bytes && leb 128 c)
    then b'\\' ∷ b'x' ∷ hex_digit (c / 16) ∷ hex_digit (c % 16) ∷ []
    else c ∷ []

repr_chars : Bool → ℕ → Text → Text
unfolding repr_char
repr_chars is_bytes q [] = []
repr_chars is_bytes q (c ∷ s) = repr_char is_bytes q c ++ repr_chars is_bytes q s

-- double quotes where the text holds single quotes only
abbrev repr_quote : Text → ℕ
repr_quote s = if contains b'\'' s && not (contains b'"' s) then b'"' else b'\''

-- `repr(s)` of a text and of bytes
unfoldable pub repr : Text → Text
unfolding contains repr_chars
repr s = (repr_quote s ∷ repr_chars false (repr_quote s) s) ++ repr_quote s ∷ []

unfoldable pub repr_bytes : Bytes → Text
unfolding contains repr_chars
repr_bytes s = (b'b' ∷ repr_quote s ∷ repr_chars true (repr_quote s) s) ++ repr_quote s ∷ []

abbrev is_key_error : Kind → Bool
is_key_error Kind.key_error = true
is_key_error _ = false

-- `str(exc)`: a `KeyError` shows the `repr` of its argument
unfoldable pub str_exception : Exception → Text
str_exception e = if is_key_error e.kind then repr e.message else e.message
