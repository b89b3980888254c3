-- ===== src/Examples/Parser.antt =====
-- Command lines at concrete inputs.
use pynq_sdk.Prelude.{◌≡◌, ◌≢◌, refl, ℕ, List, [], ◌∷◌, ◌++◌}
use pynq_sdk.Python.Text.{Text, is_space, lit, upper}
use pynq_sdk.Python.Text.Laws.{NoSpace, IsBlank}
use pynq_sdk.Scpi.{split_args, normalize_scpi}
use pynq_sdk.Scpi.Tokens.{is_token, IsToken, spread, tokens, AreTokens, split_args-spread}
use pynq_sdk.Scpi.RoundTrip.{normalize_scpi-spread}
use pynq_sdk.Scpi.Mnemonic.{IsMnemonic, normalize_scpi-IsMnemonic}

cons_ne_nil : (c : ℕ) (s : Text) → (c ∷ s) ≢ []
cons_ne_nil c s e = cc

abbrev later : List (Text × Text)
later = (lit " \t", lit "3") ∷ []

quoted_IsToken : IsToken (lit "\"a b\"")
quoted_IsToken = record { not_empty = cons_ne_nil _ _; balanced = unfold is_token is_space in refl }

later-AreTokens : AreTokens later
later-AreTokens = (
  record { not_empty = cons_ne_nil _ _; separators = (refl, (refl, tt)) },
  record { not_empty = cons_ne_nil _ _; balanced = unfold is_token is_space in refl },
  tt,
)

split_args-spread_example : split_args (spread (lit "\"a b\"") later) ≡ tokens (lit "\"a b\"") later
split_args-spread_example = split_args-spread (lit "\"a b\"") later quoted_IsToken later-AreTokens

word_NoSpace : NoSpace (lit "pwm:freq")
word_NoSpace = unfold is_space in (refl, (refl, (refl, (refl, (refl, (refl, (refl, (refl, tt))))))))

one_IsBlank : IsBlank (lit " ")
one_IsBlank = unfold is_space in (refl, tt)

normalize_scpi-spread_example :
    normalize_scpi
      (lit " " ++ ((lit "pwm:freq" ++ (lit " " ++ spread (lit "\"a b\"") later)) ++ lit " "))
    ≡ (upper (lit "pwm:freq"), tokens (lit "\"a b\"") later)
normalize_scpi-spread_example =
    normalize_scpi-spread (lit " ") (lit "pwm:freq") (lit " ") one_IsBlank (cons_ne_nil _ _)
      word_NoSpace one_IsBlank (lit " ") (lit "\"a b\"") later (cons_ne_nil _ _) one_IsBlank
      quoted_IsToken later-AreTokens

normalize_scpi-IsMnemonic_example : IsMnemonic (normalize_scpi (lit "  *idn? now")).0
normalize_scpi-IsMnemonic_example = normalize_scpi-IsMnemonic (lit "  *idn? now")
