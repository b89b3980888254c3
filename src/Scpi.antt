-- ===== src/Scpi.antt =====
-- pynq_instrument/scpi_parser.py
pub mod Tokens
pub mod RoundTrip
pub mod Mnemonic
use pynq_sdk.Prelude.{
  ℕ, zero, suc, Bool, true, false, ◌||◌, Option, none, some, List, [], ◌∷◌, ◌++◌, take, drop, ◌==◌,
  if◌then◌else◌,
}
use pynq_sdk.Python.Text.{Text, is_space, upper, strip}

-- The local variables of the loop. `quote_char` starts as the empty text, which is `none` here.
pub record Splitter : Type 0 where
  pub args : List Text
  pub current : Text
  pub in_quote : Bool
  pub quote_char : Option ℕ

abbrev pub is_quote : ℕ → Bool
is_quote ch = ch == b'"' || ch == b'\''

abbrev pub is_separator : ℕ → Bool
is_separator ch = ch == b' ' || ch == b'\t'

abbrev pub is_char : Option ℕ → ℕ → Bool
is_char none ch = false
is_char (some c) ch = ch == c

-- `if current: args.append("".join(current))`
abbrev pub flush : Text → List Text → List Text
flush [] args = args
flush (c ∷ s) args = args ++ (c ∷ s) ∷ []

-- one round of `for ch in s`
unfoldable pub split_char : Splitter → ℕ → Splitter
split_char t ch =
    if t.in_quote
    then record t {
      current = t.current ++ ch ∷ [];
      in_quote = if is_char t.quote_char ch then false else t.in_quote;
    }
    else if is_quote ch
    then record t { in_quote = true; quote_char = some ch; current = t.current ++ ch ∷ [] }
    else if is_separator ch
    then record t { args = flush t.current t.args; current = [] }
    else record t { current = t.current ++ ch ∷ [] }

unfoldable pub split_loop : Splitter → Text → Splitter
unfolding split_char
split_loop t [] = t
split_loop t (ch ∷ s) = split_loop (split_char t ch) s

abbrev pub new_splitter : Splitter
new_splitter = record { args = []; current = []; in_quote = false; quote_char = none }

unfoldable pub split_args : Text → List Text
unfolding split_loop
split_args s = let t = split_loop new_splitter s in flush t.current t.args

-- the `while` loop that finds the end of the mnemonic
unfoldable pub mnemonic_end : Text → ℕ
unfolding is_space
mnemonic_end [] = 0
mnemonic_end (c ∷ s) = if is_space c then 0 else suc (mnemonic_end s)

abbrev pub parse_args : Text → List Text
parse_args [] = []
parse_args (c ∷ s) = split_args (c ∷ s)

abbrev pub normalize_stripped : Text → Text × List Text
normalize_stripped [] = ([], [])
normalize_stripped (c ∷ s) =
    let idx = mnemonic_end (c ∷ s) in
    (upper (take idx (c ∷ s)), parse_args (strip (drop idx (c ∷ s))))

unfoldable pub normalize_scpi : Text → Text × List Text
unfolding mnemonic_end split_args strip upper
normalize_scpi raw = normalize_stripped (strip raw)

abbrev ends_query : Text → Bool
ends_query [] = false
ends_query (c ∷ []) = c == b'?'
ends_query (c ∷ d ∷ s) = ends_query (d ∷ s)

unfoldable pub is_query : Text → Bool
is_query mnemonic = ends_query mnemonic
