-- ===== src/Scpi/Mnemonic.antt =====
-- What holds of the mnemonic for every input, well formed or not.
use pynq_sdk.Prelude.{
  ℕ, ◌≡◌, ◌≢◌, refl, ◌∙◌, sym, ap, false, [], ◌∷◌, ◌++◌, arith, take, All-reverse, Bool-cases, inl,
  inr,
}
use mathlib.Core.List.{append-nil}
use pynq_sdk.Python.Text.{Text, is_space, upper_char, upper, strip}
use pynq_sdk.Python.Text.Laws.{NoSpace, IsBlank, HeadVisible, strip_padded}
use pynq_sdk.Scpi.{mnemonic_end, normalize_stripped, normalize_scpi}
use pynq_sdk.Scpi.RoundTrip.{cut, normalize_stripped_lem, cut_append}

upper_char_idem : (c : ℕ) → upper_char (upper_char c) ≡ upper_char c
unfolding upper_char
upper_char_idem c = ground arith

is_space-upper_char : (c : ℕ) → is_space c ≡ false → is_space (upper_char c) ≡ false
unfolding upper_char is_space
is_space-upper_char c h = ground arith

pub upper_idem : (s : Text) → upper (upper s) ≡ upper s
unfolding upper
upper_idem [] = refl
upper_idem (c ∷ s) = cc (upper_char_idem c, upper_idem s)

NoSpace-upper : (s : Text) → NoSpace s → NoSpace (upper s)
unfolding upper
NoSpace-upper [] h = tt
NoSpace-upper (c ∷ s) h = (is_space-upper_char c h.0, NoSpace-upper s h.1)

NoSpace-take : (s : Text) → NoSpace (take (mnemonic_end s) s)
unfolding mnemonic_end
NoSpace-take [] = tt
NoSpace-take (c ∷ s) = elim (Bool-cases (is_space c)) [
  | inl blank ↦ rw blank tt
  | inr visible ↦ rw visible (visible, NoSpace-take s)
]

-- A mnemonic is in upper case and holds no white space.
pub record IsMnemonic (m : Text) : Type 0 where
  pub upper_case : upper m ≡ m
  pub one_word : NoSpace m

stripped-IsMnemonic : (s : Text) → IsMnemonic (normalize_stripped s).0
unfolding upper
stripped-IsMnemonic [] = record { upper_case = refl; one_word = tt }
stripped-IsMnemonic (c ∷ s) = record {
  upper_case = upper_idem (take (mnemonic_end (c ∷ s)) (c ∷ s));
  one_word = NoSpace-upper _ (NoSpace-take (c ∷ s));
}

-- Whatever text is received, the mnemonic that is looked up is in upper case and holds no white
-- space.
pub normalize_scpi-IsMnemonic : (raw : Text) → IsMnemonic (normalize_scpi raw).0
unfolding normalize_scpi
normalize_scpi-IsMnemonic raw = stripped-IsMnemonic (strip raw)

NoSpace-HeadVisible : (s : Text) → NoSpace s → HeadVisible s
NoSpace-HeadVisible [] h = tt
NoSpace-HeadVisible (c ∷ s) h = h.0

-- A line of one word, with white space around it or none, gives that word in upper case and no
-- token.
pub normalize_scpi_word :
    (pad m pad' : Text)
    → IsBlank pad
    → m ≢ []
    → NoSpace m
    → IsBlank pad'
    → normalize_scpi (pad ++ (m ++ pad')) ≡ (upper m, [])
unfolding normalize_scpi
normalize_scpi_word pad m pad' before ne word after =
    rw
      (strip_padded pad m pad' before after ne (NoSpace-HeadVisible m word)
        (NoSpace-HeadVisible _ (All-reverse _ m word)))
      (normalize_stripped_lem m ne
        ∙ ap cut (sym (append-nil m))
        ∙ cut_append m [] word tt
        ∙ unfold strip in refl)
