-- ===== src/Python/Json/Total.antt =====
-- `loads` has enough fuel for every text.
use pynq_sdk.Prelude.{
  ℕ, zero, suc, ◌*◌, ◌<◌, ◌≢◌, Bool, true, false, Bool-cases, inl, inr, Option, none, some, [], ◌∷◌,
  arith, length, ◌==◌,
}
use pynq_sdk.Python.Text.{Text}
use pynq_sdk.Python.Json.{Json, JsonList, JsonDict, json_string, json_list, json_dict}
use pynq_sdk.Python.Json.Scan.{Parsed, parsed, out_of_fuel, and_then, skip_blanks, read_string}
use pynq_sdk.Python.Json.Numbers.{read_atom}
use pynq_sdk.Python.Json.Loads.{
  Start, quote, bracket, brace, atom, start, separator, closing, read_key, read_value, read_items,
  read_entries, enough_fuel,
}
use pynq_sdk.Python.Json.Shorter.{
  Leaves, Leaves-and_then, Leaves-weaker, length-skip_blanks, Behind, Leaves-read_string,
  Leaves-read_atom, Leaves-separator, Leaves-read_key, closing-Behind,
}

-- where a value's first character leads
abbrev Begins : ℕ → Start → Type 0
Begins n (quote rest) = length rest < n
Begins n (bracket rest) = length rest < n
Begins n (brace rest) = length rest < n
Begins n atom = Unit {0}

start-Begins : (s : Text) → Begins (length s) (start s)
unfolding start
start-Begins [] = tt
start-Begins (c ∷ s) = elim (Bool-cases (c == b'"')) [
  | inl quoted ↦ rw quoted (omega arith)
  | inr other ↦ rw other (elim (Bool-cases (c == b'[')) [
    | inl list ↦ rw list (omega arith)
    | inr other' ↦ rw other' (elim (Bool-cases (c == b'{')) [
      | inl dict ↦ rw dict (omega arith)
      | inr atomic ↦ rw atomic tt
    ])
  ])
]

-- `read_value` and the others on the first character they see.
module _ (s : Text) (items : Text → Parsed JsonList) (entries : Text → Parsed JsonDict) where
  abbrev value_by : Start → Parsed Json
  value_by b = elim b [
    | quote rest ↦ and_then (read_string rest) λ t rest'. parsed (json_string t) rest'
    | bracket rest ↦ and_then (items rest) λ xs rest'. parsed (json_list xs) rest'
    | brace rest ↦ and_then (entries rest) λ d rest'. parsed (json_dict d) rest'
    | atom ↦ read_atom s
  ]

  Leaves-value_by :
      ((rest : Text) → length rest < length s → Leaves (length rest) (items rest))
      → ((rest : Text) → length rest < length s → Leaves (length rest) (entries rest))
      → (b : Start) → Begins (length s) b
      → Leaves (length s) (value_by b)
  Leaves-value_by hi he (quote rest) h =
      Leaves-and_then _ _ (read_string rest) _ (Leaves-read_string rest) λ _ _ h'. omega arith
  Leaves-value_by hi he (bracket rest) h =
      Leaves-and_then _ _ (items rest) _ (hi rest h) λ _ _ h'. omega arith
  Leaves-value_by hi he (brace rest) h =
      Leaves-and_then _ _ (entries rest) _ (he rest h) λ _ _ h'. omega arith
  Leaves-value_by hi he atom h = Leaves-read_atom s

Leaves-closing :
    {A : Type 0} (n : ℕ) (o : Option Text) (a : A) (p : Parsed A)
    → Behind n o
    → Leaves n p
    → Leaves n (elim o [ some rest ↦ parsed a rest | none ↦ p ])
Leaves-closing n none a p h other = other
Leaves-closing n (some rest) a p h other = h

mutual
  unfolding read_value

  Leaves-read_value : (f : ℕ) (s : Text) → 2 * length s < f → Leaves (length s) (read_value f s)
  Leaves-read_value zero s h = absurd (omega arith)
  Leaves-read_value (suc f) s h =
      Leaves-value_by s (read_items f true) (read_entries f true)
        (λ rest less. Leaves-read_items f true rest (omega arith))
        (λ rest less. Leaves-read_entries f true rest (omega arith)) (start s) (start-Begins s)

  Leaves-read_items :
      (f : ℕ) (first : Bool) (s : Text)
      → suc (2 * length s) < f
      → Leaves (length s) (read_items f first s)
  Leaves-read_items zero first s h = absurd (omega arith)
  Leaves-read_items (suc f) first s h =
      let here = skip_blanks s in
      let shorter = length-skip_blanks s in
      Leaves-weaker (length here) (length s) _ shorter (
        Leaves-closing _ (closing b']' here) _ _ (closing-Behind b']' here) (
          Leaves-and_then _ _ (separator first here) _ (Leaves-separator first here) λ _ s1 h1.
            Leaves-and_then _ _ (read_value f s1) _ (Leaves-read_value f s1 (omega arith))
              λ x s2 h2.
                Leaves-and_then _ _ (read_items f false s2) _
                  (Leaves-read_items f false s2 (omega arith)) λ xs s3 h3. omega arith))

  Leaves-read_entries :
      (f : ℕ) (first : Bool) (s : Text)
      → suc (2 * length s) < f
      → Leaves (length s) (read_entries f first s)
  Leaves-read_entries zero first s h = absurd (omega arith)
  Leaves-read_entries (suc f) first s h =
      let here = skip_blanks s in
      let shorter = length-skip_blanks s in
      Leaves-weaker (length here) (length s) _ shorter (
        Leaves-closing _ (closing b'}' here) _ _ (closing-Behind b'}' here) (
          Leaves-and_then _ _ (separator first here) _ (Leaves-separator first here) λ _ s1 h1.
            Leaves-and_then _ _ (read_key s1) _ (Leaves-read_key s1) λ k s2 h2.
              Leaves-and_then _ _ (read_value f s2) _ (Leaves-read_value f s2 (omega arith))
                λ x s3 h3.
                  Leaves-and_then _ _ (read_entries f false s3) _
                    (Leaves-read_entries f false s3 (omega arith)) λ xs s4 h4. omega arith))

ended : (n : ℕ) (p : Parsed Json) → Leaves n p → p ≢ out_of_fuel
ended n p h e = cc (rw e at h)

-- The fuel that `loads` spends is enough: on no text does the parser run out of it.
pub read_value_total : (s : Text) → read_value (enough_fuel s) s ≢ out_of_fuel
read_value_total s = ended (length s) _ (Leaves-read_value (enough_fuel s) s (omega arith))
