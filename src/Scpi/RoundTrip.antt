-- ===== src/Scpi/RoundTrip.antt =====
-- `normalize_scpi` on whole command lines.
use mathlib.Core.List.{append-nil}
use pynq_sdk.Prelude.{
  ℕ, suc, ◌≡◌, ◌≢◌, refl, ◌∙◌, sym, ap, true, false, Option, none, some, List, [], ◌∷◌, ◌++◌, arith,
  take, drop, length, take-append, drop-append, Bool-cases, inl, inr, ◌==◌,
}
use pynq_sdk.Python.Text.{Text, is_space, upper, strip}
use pynq_sdk.Python.Text.Laws.{
  NoSpace, IsBlank, HeadVisible, LastVisible, LastVisible-append, LastVisible-cons, strip_padded,
}
use pynq_sdk.Scpi.{
  is_quote, mnemonic_end, parse_args, normalize_stripped, split_args, normalize_scpi,
}
use pynq_sdk.Scpi.Tokens.{is_token, IsToken, spread, tokens, AreTokens, split_args-spread}

quote_visible : (c : ℕ) → is_quote c ≡ true → is_space c ≡ false
unfolding is_space
quote_visible c h = ground arith

-- A token begins and ends with a visible character.
is_token-HeadVisible : (s : Text) → is_token none s ≡ true → HeadVisible s
unfolding is_token
is_token-HeadVisible [] h = tt
is_token-HeadVisible (c ∷ s) h = ground (arith, quote_visible c)

abbrev QuoteOrNone : Option ℕ → Type 0
QuoteOrNone none = Unit
QuoteOrNone (some q) = is_quote q ≡ true

is_token-LastVisible :
    (o : Option ℕ) (c : ℕ) (s : Text)
    → QuoteOrNone o
    → is_token o (c ∷ s) ≡ true
    → LastVisible (c ∷ s)
unfolding is_token
is_token-LastVisible none c [] q h = ground (arith, quote_visible c)
is_token-LastVisible (some o) c [] q h = ground (arith, quote_visible o)
is_token-LastVisible none c (d ∷ s) q h = elim (Bool-cases (is_quote c)) [
  | inl quoted ↦
      LastVisible-cons c (d ∷ s) (cc) (is_token-LastVisible (some c) d s quoted (rw quoted at h))
  | inr plain ↦
      let rest : is_token none (d ∷ s) ≡ true = ground arith in
      LastVisible-cons c (d ∷ s) (cc) (is_token-LastVisible none d s tt rest)
]
is_token-LastVisible (some o) c (d ∷ s) q h = elim (Bool-cases (c == o)) [
  | inl closes ↦
      let rest : is_token none (d ∷ s) ≡ true = ground arith in
      LastVisible-cons c (d ∷ s) (cc) (is_token-LastVisible none d s tt rest)
  | inr inside ↦
      let rest : is_token (some o) (d ∷ s) ≡ true = ground arith in
      LastVisible-cons c (d ∷ s) (cc) (is_token-LastVisible (some o) d s q rest)
]

IsToken-HeadVisible : (s : Text) → IsToken s → HeadVisible s
IsToken-HeadVisible s h = is_token-HeadVisible s h.balanced

IsToken-LastVisible : (s : Text) → IsToken s → LastVisible s
IsToken-LastVisible [] h = absurd (h.not_empty refl)
IsToken-LastVisible (c ∷ s) h = is_token-LastVisible none c s tt h.balanced

spread_ne_nil : (s : Text) (ps : List (Text × Text)) → s ≢ [] → spread s ps ≢ []
spread_ne_nil [] ps ne = absurd (ne refl)
spread_ne_nil (c ∷ s) [] ne = cc
spread_ne_nil (c ∷ s) ((gap, u) ∷ ps) ne = λ e. cc

spread-HeadVisible :
    (s : Text) (ps : List (Text × Text)) → s ≢ [] → HeadVisible s → HeadVisible (spread s ps)
spread-HeadVisible [] ps ne h = absurd (ne refl)
spread-HeadVisible (c ∷ s) [] ne h = h
spread-HeadVisible (c ∷ s) ((gap, u) ∷ ps) ne h = h

append_ne_nil : (s t : Text) → t ≢ [] → s ++ t ≢ []
append_ne_nil [] t ne = ne
append_ne_nil (c ∷ s) t ne = λ e. cc

spread-LastVisible :
    (s : Text) (ps : List (Text × Text)) → IsToken s → AreTokens ps → LastVisible (spread s ps)
spread-LastVisible s [] h hs = IsToken-LastVisible s h
spread-LastVisible s ((gap, u) ∷ ps) h hs =
    let ne = spread_ne_nil u ps hs.1.not_empty in
    LastVisible-append s (gap ++ spread u ps) (append_ne_nil gap (spread u ps) ne)
      (LastVisible-append gap (spread u ps) ne (spread-LastVisible u ps hs.1 hs.2))

-- The mnemonic ends at the first white space.
abbrev pub BlankHead : Text → Type 0
BlankHead [] = Unit
BlankHead (c ∷ s) = is_space c ≡ true

mnemonic_end-NoSpace : (m s : Text) → NoSpace m → BlankHead s → mnemonic_end (m ++ s) ≡ length m
unfolding mnemonic_end
mnemonic_end-NoSpace [] [] h b = refl
mnemonic_end-NoSpace [] (c ∷ s) h b = rw b
mnemonic_end-NoSpace (c ∷ m) s h b = rw h.0 (ap suc (mnemonic_end-NoSpace m s h.1 b))

append_visible : (m gap t : Text) → NoSpace m → m ≢ [] → HeadVisible (m ++ t)
append_visible [] gap t h ne = absurd (ne refl)
append_visible (c ∷ m) gap t h ne = h.0

BlankHead-append : (gap t : Text) → gap ≢ [] → IsBlank gap → BlankHead (gap ++ t)
BlankHead-append [] t ne h = absurd (ne refl)
BlankHead-append (c ∷ gap) t ne h = h.0

-- `normalize_stripped` on a non-empty text
abbrev pub cut : Text → Text × List Text
cut s = (upper (take (mnemonic_end s) s), parse_args (strip (drop (mnemonic_end s) s)))

pub normalize_stripped_lem : (s : Text) → s ≢ [] → normalize_stripped s ≡ cut s
normalize_stripped_lem [] ne = absurd (ne refl)
normalize_stripped_lem (c ∷ s) ne = refl

pub cut_append :
    (m rest : Text)
    → NoSpace m
    → BlankHead rest
    → cut (m ++ rest) ≡ (upper m, parse_args (strip rest))
cut_append m rest h b =
    let e = mnemonic_end-NoSpace m rest h b in
    rw (e, take-append m rest (length m) refl, drop-append m rest (length m) refl)

parse_args_lem : (s : Text) → s ≢ [] → parse_args s ≡ split_args s
parse_args_lem [] ne = absurd (ne refl)
parse_args_lem (c ∷ s) ne = refl

module _ (pad m pad' : Text) (before : IsBlank pad) (ne : m ≢ []) (word : NoSpace m)
    (after : IsBlank pad') where
  -- A line of a word, a gap and argument tokens with gaps between them gives the word in upper
  -- case and exactly the tokens, whatever white space stands around the line. A token is not
  -- empty, closes its quotes, and has white space inside quotes only.
  pub normalize_scpi-spread :
      (gap s : Text) (ps : List (Text × Text))
      → gap ≢ []
      → IsBlank gap
      → IsToken s
      → AreTokens ps
      → normalize_scpi (pad ++ ((m ++ (gap ++ spread s ps)) ++ pad')) ≡ (upper m, tokens s ps)
  normalize_scpi-spread gap s ps gap_ne blank h hs =
      let args = spread s ps in
      let args_ne = spread_ne_nil s ps h.not_empty in
      let args_last = spread-LastVisible s ps h hs in
      let rest_ne = append_ne_nil gap args args_ne in
      let rest_last = LastVisible-append gap args args_ne args_last in
      let args_first = spread-HeadVisible s ps h.not_empty (IsToken-HeadVisible s h) in
      let line_last = LastVisible-append m (gap ++ args) rest_ne rest_last in
      let stripped =
        strip_padded pad (m ++ (gap ++ args)) pad' before after
          (append_ne_nil m (gap ++ args) rest_ne) (append_visible m gap (gap ++ args) word ne)
          line_last in
      let inner : strip (gap ++ args) ≡ args =
        ap (λ t. strip (gap ++ t)) (sym (append-nil args))
        ∙ strip_padded gap args [] blank tt args_ne args_first args_last in
      unfold normalize_scpi in
      rw stripped (
        normalize_stripped_lem (m ++ (gap ++ args)) (append_ne_nil m (gap ++ args) rest_ne)
        ∙ cut_append m (gap ++ args) word (BlankHead-append gap args gap_ne blank)
        ∙ ap (λ t. (upper m, parse_args t)) inner
        ∙ ap (λ a. (upper m, a)) (parse_args_lem args args_ne ∙ split_args-spread s ps h hs))
