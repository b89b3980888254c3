-- ===== src/Python/Json/Entries.antt =====
-- The parts of a list and of a dict in a text that `dumps` wrote.
use mathlib.Core.List.{append_assoc}
use pynq_sdk.Prelude.{
  ℕ, suc, ◌+◌, ◌<◌, ◌≡◌, refl, ap, ◌∙◌, true, false, none, [], ◌∷◌, ◌++◌, arith, All, length,
  length-append,
}
use pynq_sdk.Python.Text.{Text}
use pynq_sdk.Python.Json.{Json, JsonDict, item, entry, json_chars, dumps_string, dumps, dumps_more}
use pynq_sdk.Python.Json.Scan.{parsed, and_then, skip_blanks, read_string}
use pynq_sdk.Python.Json.Loads.{expect, closing, read_key, read_value, read_items, read_entries}
use pynq_sdk.Python.Json.Strings.{IsScalar, read_string-json_chars}

-- A string behind its opening quote, and a key behind its own with the colon.
pub read_string-dumps :
    (s t : Text) → All IsScalar s → read_string ((json_chars s ++ b'"' ∷ []) ++ t) ≡ parsed s t
read_string-dumps s t h =
    rw (append_assoc (json_chars s) (b'"' ∷ []) t) (read_string-json_chars s t h)

pub read_key-dumps :
    (k t : Text)
    → All IsScalar k
    → skip_blanks t ≡ t
    → read_key (dumps_string k ++ b':' ∷ t) ≡ parsed k t
unfolding read_key dumps_string expect
read_key-dumps k t h b = rw (read_string-dumps k (b':' ∷ t) h) (unfold skip_blanks in rw b refl)

-- An entry in its text, and what it takes of it.
pub entry_text :
    (k : Text) (v : Json) (e : JsonDict) (t : Text)
    → (dumps_string k ++ b':' ∷ (dumps v ++ dumps_more e)) ++ t
      ≡ dumps_string k ++ b':' ∷ (dumps v ++ (dumps_more e ++ t))
entry_text k v e t =
    append_assoc (dumps_string k) (b':' ∷ (dumps v ++ dumps_more e)) t
    ∙ ap (λ r. dumps_string k ++ b':' ∷ r) (append_assoc (dumps v) (dumps_more e) t)

pub length_entry :
    (k : Text) (v : Json) (e : JsonDict)
    → length (dumps v) + length (dumps_more e)
      < length (dumps_string k ++ b':' ∷ (dumps v ++ dumps_more e))
length_entry k v e = omega (
  arith,
  length-append (dumps_string k) (b':' ∷ (dumps v ++ dumps_more e)),
  length-append (dumps v) (dumps_more e),
)

-- The first part of a list and of a dict that is not empty.
pub read_items_first :
    (f : ℕ) (s : Text)
    → skip_blanks s ≡ s
    → closing b']' s ≡ none
    → read_items (suc f) true s
      ≡ and_then
          (read_value f s)
          λ x rest. and_then (read_items f false rest) λ xs rest'. parsed (item x xs) rest'
unfolding read_value
read_items_first f s blanks unclosed = rw (read_items, blanks, unclosed) (rw blanks refl)

pub read_entries_first :
    (f : ℕ) (s : Text)
    → skip_blanks s ≡ s
    → closing b'}' s ≡ none
    → read_entries (suc f) true s
      ≡ and_then (read_key s) λ k there.
        and_then
          (read_value f there)
          λ v rest. and_then (read_entries f false rest) λ d rest'. parsed (entry k v d) rest'
unfolding read_value
read_entries_first f s blanks unclosed = rw (read_entries, blanks, unclosed) (rw blanks refl)

-- An entry behind a comma.
pub read_entries_more :
    (f : ℕ) (s : Text)
    → skip_blanks s ≡ s
    → read_entries (suc f) false (b',' ∷ s)
      ≡ and_then (read_key s) λ k there.
        and_then
          (read_value f there)
          λ v rest. and_then (read_entries f false rest) λ d rest'. parsed (entry k v d) rest'
unfolding read_value
read_entries_more f s blanks = opened ∙ rw blanks refl
  where
    opened :
        read_entries (suc f) false (b',' ∷ s)
        ≡ and_then (read_key (skip_blanks s)) λ k there.
          and_then
            (read_value f there)
            λ v rest. and_then (read_entries f false rest) λ d rest'. parsed (entry k v d) rest'
    opened = refl
