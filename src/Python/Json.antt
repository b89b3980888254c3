-- ===== src/Python/Json.antt =====
-- JSON values, and `json.dumps(payload, separators=(",", ":"))` with its default `ensure_ascii`.
pub mod Scan
pub mod Numbers
pub mod Loads
pub mod Shorter
pub mod Total
pub mod Strings
pub mod Parts
pub mod Atoms
pub mod Written
pub mod Openings
pub mod Entries
pub mod RoundTrip
use pynq_sdk.Prelude.{
  ℕ, Bool, ◌+◌, ◌-◌, ◌/◌, ◌%◌, ◌&&◌, ◌||◌, List, [], ◌∷◌, ◌++◌, ltb, leb, ◌==◌, if◌then◌else◌,
}
use pynq_sdk.Python.Text.{Text, lit}
use pynq_sdk.Python.Int.{ℤ, str_int}
use pynq_sdk.Python.Exception.{hex_digit}

-- A float is the text that `json` writes for it.
mutual
  pub data Json : Type 0 where
    json_null : Json
    json_bool : Bool → Json
    json_string : Text → Json
    json_int : ℤ → Json
    json_float : Text → Json
    json_list : JsonList → Json
    json_dict : JsonDict → Json

  pub data JsonList : Type 0 where
    empty_list : JsonList
    item : Json → JsonList → JsonList

  pub data JsonDict : Type 0 where
    empty_dict : JsonDict
    entry : Text → Json → JsonDict → JsonDict

-- \uXXXX
unfoldable pub hex4 : ℕ → Text
unfolding hex_digit
hex4 c =
    b'\\'
    ∷ b'u'
    ∷ hex_digit (c / 4096 % 16)
    ∷ hex_digit (c / 256 % 16)
    ∷ hex_digit (c / 16 % 16)
    ∷ hex_digit (c % 16)
    ∷ []

unfoldable pub json_char : ℕ → Text
unfolding hex4
json_char c =
    if c == b'"' || c == b'\\'
    then b'\\' ∷ c ∷ []
    else if c == b'\n'
    then lit "\\n"
    else if c == b'\r'
    then lit "\\r"
    else if c == b'\t'
    then lit "\\t"
    else if c == 12
    then lit "\\f"
    else if c == 8
    then lit "\\b"
    else if leb 32 c && leb c 126
    then c ∷ []
    else if ltb c 0x1_0000
    then hex4 c
    else hex4 (0xd800 + (c - 0x1_0000) / 1024) ++ hex4 (0xdc00 + (c - 0x1_0000) % 1024)

unfoldable pub json_chars : Text → Text
unfolding json_char
json_chars [] = []
json_chars (c ∷ s) = json_char c ++ json_chars s

unfoldable pub dumps_string : Text → Text
unfolding json_chars
dumps_string s = lit "\"" ++ json_chars s ++ lit "\""

unfoldable mutual
  unfolding dumps_string

  pub dumps : Json → Text
  dumps json_null = lit "null"
  dumps (json_bool b) = if b then lit "true" else lit "false"
  dumps (json_string s) = dumps_string s
  dumps (json_int n) = str_int n
  dumps (json_float x) = x
  dumps (json_list xs) = lit "[" ++ dumps_items xs ++ lit "]"
  dumps (json_dict d) = lit "{" ++ dumps_entries d ++ lit "}"

  pub dumps_items : JsonList → Text
  dumps_items empty_list = []
  dumps_items (item x xs) = dumps x ++ dumps_rest xs

  pub dumps_rest : JsonList → Text
  dumps_rest empty_list = []
  dumps_rest (item x xs) = lit "," ++ (dumps x ++ dumps_rest xs)

  pub dumps_entries : JsonDict → Text
  dumps_entries empty_dict = []
  dumps_entries (entry k v d) = dumps_string k ++ (lit ":" ++ (dumps v ++ dumps_more d))

  pub dumps_more : JsonDict → Text
  dumps_more empty_dict = []
  dumps_more (entry k v d) = lit "," ++ (dumps_string k ++ (lit ":" ++ (dumps v ++ dumps_more d)))

-- A Python list and a Python dict literal, and `d[k] = v` for a new key.
abbrev pub to_json_list : List Json → JsonList
to_json_list [] = empty_list
to_json_list (x ∷ xs) = item x (to_json_list xs)

abbrev pub to_json_dict : List (Text × Json) → JsonDict
to_json_dict [] = empty_dict
to_json_dict ((k, v) ∷ d) = entry k v (to_json_dict d)
