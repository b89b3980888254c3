-- ===== src/Python/Json/RoundTrip.antt =====
-- What `dumps` wrote, `loads` reads back.
use mathlib.Core.List.{append_assoc, append-nil}
use pynq_sdk.Prelude.{
  ℕ, zero, suc, ◌*◌, ◌<◌, ◌≡◌, refl, ap, ◌∙◌, Bool, true, false, inl, inr, [], ◌∷◌, ◌++◌, arith,
  length, length-append,
}
use pynq_sdk.Python.Text.{Text, lit}
use pynq_sdk.Python.Int.{str_int}
use pynq_sdk.Python.Exception.{ok}
use pynq_sdk.Python.Json.{
  Json, JsonList, JsonDict, json_null, json_bool, json_int, json_float, json_string, json_list,
  json_dict, empty_list, item, empty_dict, entry, dumps_string, dumps, dumps_items, dumps_rest,
  dumps_entries, dumps_more,
}
use pynq_sdk.Python.Json.Scan.{parsed, skip_blanks}
use pynq_sdk.Python.Json.Loads.{read_value, read_items, read_entries, enough_fuel, loads}
use pynq_sdk.Python.Json.Parts.{Delimited}
use pynq_sdk.Python.Json.Written.{read_atom-str_int}
use pynq_sdk.Python.Json.Openings.{
  IsWritable, AreWritable, IsWritableDict, length-Opens, skip_blanks-Opens, closing-Opens,
  read_value_atom, read_atom-bool, read_atom-null, dumps-Opens, dumps_string-Opens, written_items,
  written_entries, dumps_rest-Delimited, dumps_more-Delimited,
}
use pynq_sdk.Python.Json.Entries.{
  read_string-dumps, read_key-dumps, entry_text, length_entry, read_items_first, read_entries_first,
  read_entries_more,
}

mutual
  unfolding read_value dumps IsWritable

  pub read_value-dumps :
      (j : Json) (f : ℕ) (rest : Text)
      → IsWritable j
      → Delimited rest
      → 2 * length (dumps j) < f
      → read_value f (dumps j ++ rest) ≡ parsed j rest
  read_value-dumps j zero rest w d h = absurd (omega arith)
  read_value-dumps json_null (suc f) rest w d h =
      read_value_atom f (lit "null") rest json_null d read_atom-null
  read_value-dumps (json_bool b) (suc f) rest w d h =
      read_value_atom f (dumps (json_bool b)) rest (json_bool b) d (read_atom-bool b)
  read_value-dumps (json_int n) (suc f) rest w d h =
      read_value_atom f (str_int n) rest (json_int n) d (read_atom-str_int n)
  read_value-dumps (json_float x) (suc f) rest w d h = read_value_atom f x rest (json_float x) d w
  read_value-dumps (json_string s) (suc f) rest w d h = rw (read_string-dumps s rest w) refl
  read_value-dumps (json_list xs) (suc f) rest w d h =
      rw
        (
          append_assoc (dumps_items xs) (b']' ∷ []) rest,
          read_items-dumps xs true f rest w
              (omega (arith, length-append (dumps_items xs) (b']' ∷ []))),
        )
        refl
  read_value-dumps (json_dict e) (suc f) rest w d h =
      rw
        (
          append_assoc (dumps_entries e) (b'}' ∷ []) rest,
          read_entries-dumps e true f rest w
              (omega (arith, length-append (dumps_entries e) (b'}' ∷ []))),
        )
        refl

  read_items-dumps :
      (xs : JsonList) (first : Bool) (f : ℕ) (rest : Text)
      → AreWritable xs
      → suc (2 * length (written_items first xs)) < f
      → read_items f first (written_items first xs ++ b']' ∷ rest) ≡ parsed xs rest
  read_items-dumps xs first zero rest w h = absurd (omega arith)
  read_items-dumps empty_list true (suc f) rest w h = refl
  read_items-dumps empty_list false (suc f) rest w h = refl
  read_items-dumps (item x xs) true (suc f) rest w h =
      let o = dumps-Opens x w.0 in
      let more = dumps_rest xs ++ b']' ∷ rest in
      let size = length-append (dumps x) (dumps_rest xs) in
      ap (read_items (suc f) true) (append_assoc (dumps x) (dumps_rest xs) (b']' ∷ rest))
      ∙ read_items_first f (dumps x ++ more) (skip_blanks-Opens (dumps x) more o)
          (closing-Opens b']' (dumps x) more (inl refl) o)
      ∙ rw
          (
            read_value-dumps x f more w.0 (dumps_rest-Delimited xs rest) (omega (arith, size)),
            read_items-dumps xs false f rest w.1 (omega (arith, size, length-Opens o)),
          )
          refl
  read_items-dumps (item x xs) false (suc f) rest w h =
      let o = dumps-Opens x w.0 in
      let more = dumps_rest xs ++ b']' ∷ rest in
      let size = length-append (dumps x) (dumps_rest xs) in
      rw
        (
          append_assoc (dumps x) (dumps_rest xs) (b']' ∷ rest),
          skip_blanks-Opens (dumps x) more o,
          read_value-dumps x f more w.0 (dumps_rest-Delimited xs rest) (omega (arith, size)),
          read_items-dumps xs false f rest w.1 (omega (arith, size)),
        )
        refl

  read_entries-dumps :
      (e : JsonDict) (first : Bool) (f : ℕ) (rest : Text)
      → IsWritableDict e
      → suc (2 * length (written_entries first e)) < f
      → read_entries f first (written_entries first e ++ b'}' ∷ rest) ≡ parsed e rest
  read_entries-dumps e first zero rest w h = absurd (omega arith)
  read_entries-dumps empty_dict true (suc f) rest w h = refl
  read_entries-dumps empty_dict false (suc f) rest w h = refl
  read_entries-dumps (entry k v e) true (suc f) rest w h =
      let o = dumps-Opens v w.1.0 in
      let quoted = dumps_string-Opens k in
      let more = dumps_more e ++ b'}' ∷ rest in
      let tail = b':' ∷ (dumps v ++ more) in
      let size = length_entry k v e in
      ap (read_entries (suc f) true) (entry_text k v e (b'}' ∷ rest))
      ∙ read_entries_first f (dumps_string k ++ tail)
          (skip_blanks-Opens (dumps_string k) tail quoted)
          (closing-Opens b'}' (dumps_string k) tail (inr refl) quoted)
      ∙ rw
          (
            read_key-dumps k (dumps v ++ more) w.0 (skip_blanks-Opens (dumps v) more o),
            read_value-dumps v f more w.1.0 (dumps_more-Delimited e rest) (omega (arith, size)),
            read_entries-dumps e false f rest w.1.1 (omega (arith, size)),
          )
          refl
  read_entries-dumps (entry k v e) false (suc f) rest w h =
      let o = dumps-Opens v w.1.0 in
      let quoted = dumps_string-Opens k in
      let more = dumps_more e ++ b'}' ∷ rest in
      let tail = b':' ∷ (dumps v ++ more) in
      let size = length_entry k v e in
      ap (λ t. read_entries (suc f) false (b',' ∷ t)) (entry_text k v e (b'}' ∷ rest))
      ∙ read_entries_more f (dumps_string k ++ tail)
          (skip_blanks-Opens (dumps_string k) tail quoted)
      ∙ rw
          (
            read_key-dumps k (dumps v ++ more) w.0 (skip_blanks-Opens (dumps v) more o),
            read_value-dumps v f more w.1.0 (dumps_more-Delimited e rest) (omega (arith, size)),
            read_entries-dumps e false f rest w.1.1 (omega (arith, size)),
          )
          refl

-- What is written is JSON for the same value: `json.loads` gives back every value that `json.dumps`
-- wrote, if no text holds a surrogate and each float is written as a float.
pub loads-dumps : (j : Json) → IsWritable j → loads (dumps j) ≡ ok j
unfolding loads
loads-dumps j w =
    let blanks = skip_blanks-Opens (dumps j) [] (dumps-Opens j w) in
    let same : skip_blanks (dumps j) ≡ dumps j = rw append-nil at blanks in
    let front = read_value-dumps j (enough_fuel (dumps j)) [] w tt (omega arith) in
    let read : read_value (enough_fuel (dumps j)) (dumps j) ≡ parsed j [] =
      rw append-nil at front in
    rw (same, read) (unfold skip_blanks in refl)
