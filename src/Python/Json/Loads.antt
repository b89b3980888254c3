-- ===== src/Python/Json/Loads.antt =====
-- `json.loads(s)`, by recursive descent. A dict keeps the pairs in the order they are read, and a
-- lookup takes the last pair of a key.
use pynq_sdk.Prelude.{
  ℕ, zero, suc, ◌+◌, ◌*◌, Bool, true, false, Option, none, some, [], ◌∷◌, length, ◌==◌,
  if◌then◌else◌,
}
use pynq_sdk.Python.Text.{Text, lit, text_eq}
use pynq_sdk.Python.Exception.{Result, ok, raise, value_error}
use pynq_sdk.Python.Json.{
  Json, JsonList, JsonDict, json_string, json_list, json_dict, empty_list, item, empty_dict, entry,
}
use pynq_sdk.Python.Json.Scan.{
  Parsed, parsed, malformed, out_of_fuel, and_then, skip_blanks, read_string,
}
use pynq_sdk.Python.Json.Numbers.{read_atom}

-- How a value starts, with what follows the first character.
pub data Start : Type 0 where
  quote : Text → Start
  bracket : Text → Start
  brace : Text → Start
  atom : Start

unfoldable pub start : Text → Start
start [] = atom
start (c ∷ s) =
    if c == b'"'
    then quote s
    else if c == b'['
    then bracket s
    else if c == b'{'
    then brace s
    else atom

-- one character, which must be the next
unfoldable pub expect : ℕ → Text → Parsed (Unit {0})
expect p [] = malformed
expect p (c ∷ s) = if c == p then parsed tt s else malformed

-- nothing in front of the first part, a comma in front of another; blanks may follow the comma
unfoldable pub separator : Bool → Text → Parsed (Unit {0})
unfolding expect
separator first s =
    if first then parsed tt s else and_then (expect b',' s) λ _ rest. parsed tt (skip_blanks rest)

-- the text behind a closing bracket
unfoldable pub closing : ℕ → Text → Option Text
closing p [] = none
closing p (c ∷ s) = if c == p then some s else none

-- the key of an entry and its colon, with the blanks around it
unfoldable pub read_key : Text → Parsed Text
unfolding expect read_string
read_key s = and_then (expect b'"' s) λ _ rest.
    and_then (read_string rest) λ k rest'.
      and_then (expect b':' (skip_blanks rest')) λ _ rest''. parsed k (skip_blanks rest'')

-- Each call costs a unit of fuel.
unfoldable mutual
  unfolding skip_blanks read_string read_atom start separator closing read_key

  pub read_value : ℕ → Text → Parsed Json
  read_value zero s = out_of_fuel
  read_value (suc f) s = elim (start s) [
    | quote rest ↦ and_then (read_string rest) λ t rest'. parsed (json_string t) rest'
    | bracket rest ↦ and_then (read_items f true rest) λ xs rest'. parsed (json_list xs) rest'
    | brace rest ↦ and_then (read_entries f true rest) λ d rest'. parsed (json_dict d) rest'
    | atom ↦ read_atom s
  ]

  pub read_items : ℕ → Bool → Text → Parsed JsonList
  read_items zero first s = out_of_fuel
  read_items (suc f) first s = elim (closing b']' (skip_blanks s)) [
    | some rest ↦ parsed empty_list rest
    | none ↦ and_then (separator first (skip_blanks s)) λ _ here.
        and_then (read_value f here)
          λ x rest. and_then (read_items f false rest) λ xs rest'. parsed (item x xs) rest'
  ]

  pub read_entries : ℕ → Bool → Text → Parsed JsonDict
  read_entries zero first s = out_of_fuel
  read_entries (suc f) first s = elim (closing b'}' (skip_blanks s)) [
    | some rest ↦ parsed empty_dict rest
    | none ↦ and_then (separator first (skip_blanks s)) λ _ here.
        and_then (read_key here) λ k there.
          and_then (read_value f there)
            λ v rest. and_then (read_entries f false rest) λ d rest'. parsed (entry k v d) rest'
  ]

abbrev pub enough_fuel : Text → ℕ
enough_fuel s = 2 * length s + 1

abbrev whole : Json → Text → Result Json
whole j [] = ok j
whole j (c ∷ s) = raise value_error (lit "Extra data")

abbrev finish : Parsed Json → Result Json
unfolding skip_blanks
finish (parsed j rest) = whole j (skip_blanks rest)
finish malformed = raise value_error (lit "Expecting value")
finish out_of_fuel = raise value_error (lit "Out of fuel")

unfoldable pub loads : Text → Result Json
unfolding read_value skip_blanks
loads s = finish (read_value (enough_fuel (skip_blanks s)) (skip_blanks s))

-- `d.get(key)` of the pairs of a dict: the last one counts
unfoldable pub dict_get : Text → JsonDict → Option Json
unfolding text_eq
dict_get key empty_dict = none
dict_get key (entry k v d) = elim (dict_get key d) [
  | some later ↦ some later
  | none ↦ if text_eq key k then some v else none
]
