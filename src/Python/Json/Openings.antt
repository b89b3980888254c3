-- ===== src/Python/Json/Openings.antt =====
-- How a value begins in a text that `dumps` wrote, and what follows it.

use pynq_sdk.Prelude.{
  ℕ, suc, ◌<◌, ◌≡◌, refl, ap, ◌∙◌, Bool, true, false, ◌||◌, Bool-cases, inl, inr, ◌⊎◌, none, [],
  ◌∷◌, ◌++◌, arith, All, length, ◌==◌,
}
use pynq_sdk.Python.Text.{Text, lit}
use pynq_sdk.Python.Json.{
  Json, JsonList, JsonDict, json_null, json_bool, json_int, json_float, json_string, json_list,
  json_dict, empty_list, item, empty_dict, entry, dumps_string, dumps, dumps_items, dumps_rest,
  dumps_entries, dumps_more,
}
use pynq_sdk.Python.Json.Scan.{parsed, malformed, is_blank, skip_blanks}
use pynq_sdk.Python.Json.Numbers.{read_atom}
use pynq_sdk.Python.Json.Loads.{start, Start, closing, read_value}
use pynq_sdk.Python.Json.Strings.{IsScalar}
use pynq_sdk.Python.Json.Parts.{Delimited}
use pynq_sdk.Python.Json.Atoms.{begins_atom, read_atom-append, read_atom-begins, behind_parsed}
use pynq_sdk.Python.Json.Written.{read_atom-str_int}

-- Values whose text is read back: no surrogates in a text, and a float written as one.
unfoldable mutual
  pub IsWritable : Json → Type 0
  IsWritable json_null = Unit {0}
  IsWritable (json_bool b) = Unit {0}
  IsWritable (json_string s) = All IsScalar s
  IsWritable (json_int n) = Unit {0}
  IsWritable (json_float x) = read_atom x ≡ parsed (json_float x) []
  IsWritable (json_list xs) = AreWritable xs
  IsWritable (json_dict d) = IsWritableDict d

  pub AreWritable : JsonList → Type 0
  AreWritable empty_list = Unit {0}
  AreWritable (item x xs) = IsWritable x × AreWritable xs

  pub IsWritableDict : JsonDict → Type 0
  IsWritableDict empty_dict = Unit {0}
  IsWritableDict (entry k v d) = All IsScalar k × (IsWritable v × IsWritableDict d)

-- A text that begins as a value does.
pub record Opens (s : Text) : Type 0 where
  first : ℕ
  others : Text
  shape : s ≡ first ∷ others
  opening : (begins_atom first || first == b'"' || first == b'[' || first == b'{') ≡ true

-- A text that begins as a number or a constant does.
pub record OpensAtom (s : Text) : Type 0 where
  first : ℕ
  others : Text
  shape : s ≡ first ∷ others
  opening : begins_atom first ≡ true

pub length-Opens : {s : Text} → Opens s → 0 < length s
length-Opens o = rw o.shape (omega arith)

pub skip_blanks-Opens : (s t : Text) → Opens s → skip_blanks (s ++ t) ≡ s ++ t
unfolding skip_blanks is_blank
skip_blanks-Opens s t o = rw o.shape (ground (arith, o.opening))

pub closing-Opens :
    (p : ℕ) (s t : Text) → (p ≡ b']') ⊎ (p ≡ b'}') → Opens s → closing p (s ++ t) ≡ none
unfolding closing
closing-Opens p s t bracket o = rw o.shape (ground (arith, o.opening))

start-OpensAtom : (s t : Text) → OpensAtom s → start (s ++ t) ≡ Start.atom
unfolding start
start-OpensAtom s t o = rw o.shape (ground (arith, o.opening))

read_atom-nil : read_atom [] ≡ malformed
unfolding read_atom
read_atom-nil = refl

read_atom-OpensAtom : (s : Text) (j : Json) (r : Text) → read_atom s ≡ parsed j r → OpensAtom s
read_atom-OpensAtom [] j r e = absurd (cc (e, read_atom-nil))
read_atom-OpensAtom (c ∷ s) j r e = elim (Bool-cases (begins_atom c)) [
  | inl begins ↦ record { first = c; others = s; shape = refl; opening = begins }
  | inr other ↦ absurd (cc (e, read_atom-begins c s other))
]

OpensAtom-Opens : {s : Text} → OpensAtom s → Opens s
OpensAtom-Opens o = record {
  first = o.first;
  others = o.others;
  shape = o.shape;
  opening = ground (arith, o.opening);
}

-- The text of an atom, whatever delimiter follows.
pub read_value_atom :
    (f : ℕ) (s rest : Text) (j : Json)
    → Delimited rest
    → read_atom s ≡ parsed j []
    → read_value (suc f) (s ++ rest) ≡ parsed j rest
unfolding read_value
read_value_atom f s rest j d e =
    rw (read_value, start-OpensAtom s rest (read_atom-OpensAtom s j [] e))
      (read_atom-append rest d s ∙ ap (behind_parsed rest) e)

pub read_atom-bool : (b : Bool) → read_atom (dumps (json_bool b)) ≡ parsed (json_bool b) []
unfolding read_atom dumps
read_atom-bool true = refl
read_atom-bool false = refl

pub read_atom-null : read_atom (lit "null") ≡ parsed json_null []
unfolding read_atom
read_atom-null = refl

pub dumps_string-Opens : (s : Text) → Opens (dumps_string s)
unfolding dumps_string
dumps_string-Opens s = record { first = b'"'; others = _; shape = refl; opening = refl }

pub dumps-Opens : (j : Json) → IsWritable j → Opens (dumps j)
unfolding dumps IsWritable
dumps-Opens json_null w = OpensAtom-Opens (read_atom-OpensAtom _ _ _ read_atom-null)
dumps-Opens (json_bool b) w = OpensAtom-Opens (read_atom-OpensAtom _ _ _ (read_atom-bool b))
dumps-Opens (json_int n) w = OpensAtom-Opens (read_atom-OpensAtom _ _ _ (read_atom-str_int n))
dumps-Opens (json_float x) w = OpensAtom-Opens (read_atom-OpensAtom _ _ _ w)
dumps-Opens (json_string s) w = dumps_string-Opens s
dumps-Opens (json_list xs) w = record { first = b'['; others = _; shape = refl; opening = refl }
dumps-Opens (json_dict d) w = record { first = b'{'; others = _; shape = refl; opening = refl }

-- The items of a list, with the comma in front of the first one or without.
abbrev pub written_items : Bool → JsonList → Text
unfolding dumps
written_items true xs = dumps_items xs
written_items false xs = dumps_rest xs

abbrev pub written_entries : Bool → JsonDict → Text
unfolding dumps
written_entries true d = dumps_entries d
written_entries false d = dumps_more d

pub dumps_rest-Delimited : (xs : JsonList) (t : Text) → Delimited (dumps_rest xs ++ b']' ∷ t)
unfolding dumps
dumps_rest-Delimited empty_list t = refl
dumps_rest-Delimited (item x xs) t = refl

pub dumps_more-Delimited : (d : JsonDict) (t : Text) → Delimited (dumps_more d ++ b'}' ∷ t)
unfolding dumps
dumps_more-Delimited empty_dict t = refl
dumps_more-Delimited (entry k v d) t = refl
