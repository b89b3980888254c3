-- ===== src/Scpi/Tokens.antt =====
-- Argument tokens, described without the loop, and what `_split_args` makes of them.
use mathlib.Core.List.{append-nil, append_assoc}
use pynq_sdk.Prelude.{
  ℕ, ◌≡◌, ◌≢◌, refl, ◌∙◌, sym, ap, true, false, Bool, Option, none, some, List, [], ◌∷◌, ◌++◌,
  arith, ◌==◌, if◌then◌else◌, Bool-cases, inl, inr, All,
}
use pynq_sdk.Python.Text.{Text, is_space}
use pynq_sdk.Scpi.{Splitter, is_quote, is_separator, flush, split_char, split_loop, split_args}

-- Quotes are closed, and white space stands in quotes only. The option is the open quote.
unfoldable pub is_token : Option ℕ → Text → Bool
is_token none [] = true
is_token (some q) [] = false
is_token none (c ∷ s) =
    if is_quote c then is_token (some c) s else if is_space c then false else is_token none s
is_token (some q) (c ∷ s) = is_token (if c == q then none else some q) s

pub record IsToken (s : Text) : Type 0 where
  pub not_empty : s ≢ []
  pub balanced : is_token none s ≡ true

-- The state of the loop inside a token.
abbrev at : List Text → Text → Option ℕ → Option ℕ → Splitter
at args current none q = record { args = args; current = current; in_quote = false; quote_char = q }
at args current (some c) q = record {
  args = args;
  current = current;
  in_quote = true;
  quote_char = some c;
}

abbrev last_quote : Option ℕ → Text → Option ℕ → Option ℕ
last_quote o [] q = q
last_quote none (c ∷ s) q =
    if is_quote c then last_quote (some c) s (some c) else last_quote none s q
last_quote (some o) (c ∷ s) q = last_quote (if c == o then none else some o) s (some o)

separator_space : (c : ℕ) → is_separator c ≡ true → is_space c ≡ true
unfolding is_space
separator_space c h = ground arith

-- One character of a token.
split_char_quote :
    (c : ℕ) (args : List Text) (current : Text) (q : Option ℕ)
    → is_quote c ≡ true
    → split_char (at args current none q) c ≡ at args (current ++ c ∷ []) (some c) (some c)
unfolding split_char
split_char_quote c args current q h = ground arith

split_char_plain :
    (c : ℕ) (args : List Text) (current : Text) (q : Option ℕ)
    → is_quote c ≡ false
    → is_separator c ≡ false
    → split_char (at args current none q) c ≡ at args (current ++ c ∷ []) none q
unfolding split_char
split_char_plain c args current q h k = ground arith

split_char_quoted :
    (c o : ℕ) (args : List Text) (current : Text) (q : Option ℕ)
    → split_char (at args current (some o) q) c
      ≡ at args (current ++ c ∷ []) (if c == o then none else some o) (some o)
unfolding split_char
split_char_quoted c o args current q = ground arith

-- The loop reads a token into `current`.
split_loop-is_token :
    (s rest : Text) (args : List Text) (current : Text) (o q : Option ℕ)
    → is_token o s ≡ true
    → split_loop (at args current o q) (s ++ rest)
      ≡ split_loop (at args (current ++ s) none (last_quote o s q)) rest
unfolding split_loop is_token
split_loop-is_token [] rest args current none q h = rw append-nil
split_loop-is_token [] rest args current (some o) q h = cc
split_loop-is_token (c ∷ s) rest args current none q h = elim (Bool-cases (is_quote c)) [
  | inl quoted ↦
      ap (λ t. split_loop t (s ++ rest)) (split_char_quote c args current q quoted)
      ∙ split_loop-is_token s rest args (current ++ c ∷ []) (some c) (some c) (rw quoted at h)
      ∙ rw (quoted, append_assoc)
  | inr plain ↦
      let visible : (is_space c ≡ false) × (is_token none s ≡ true) = ground arith in
      ap (λ t. split_loop t (s ++ rest))
        (split_char_plain c args current q plain (ground (arith, separator_space c)))
      ∙ split_loop-is_token s rest args (current ++ c ∷ []) none q visible.1
      ∙ rw (plain, append_assoc)
]
split_loop-is_token (c ∷ s) rest args current (some o) q h =
    ap (λ t. split_loop t (s ++ rest)) (split_char_quoted c o args current q)
    ∙ split_loop-is_token s rest args (current ++ c ∷ []) (if c == o then none else some o) (some o)
        h
    ∙ rw append_assoc

-- White space that separates arguments: blanks and tabs, at least one.
pub record IsGap (gap : Text) : Type 0 where
  pub not_empty : gap ≢ []
  pub separators : All (λ c. is_separator c ≡ true) gap

-- A text of arguments: the first, and each further one behind its gap.
abbrev pub spread : Text → List (Text × Text) → Text
spread s [] = s
spread s ((gap, u) ∷ rest) = s ++ (gap ++ spread u rest)

abbrev pub tokens : Text → List (Text × Text) → List Text
tokens s [] = s ∷ []
tokens s ((gap, u) ∷ rest) = s ∷ tokens u rest

abbrev pub AreTokens : List (Text × Text) → Type 0
AreTokens [] = Unit
AreTokens ((gap, u) ∷ rest) = IsGap gap × IsToken u × AreTokens rest

split_char_separator :
    (c : ℕ) (args : List Text) (current : Text) (q : Option ℕ)
    → is_separator c ≡ true
    → split_char (at args current none q) c ≡ at (flush current args) [] none q
unfolding split_char
split_char_separator c args current q h = ground arith

split_loop_separators :
    (gap rest : Text) (args : List Text) (q : Option ℕ)
    → All (λ c. is_separator c ≡ true) gap
    → split_loop (at args [] none q) (gap ++ rest) ≡ split_loop (at args [] none q) rest
unfolding split_loop
split_loop_separators [] rest args q h = refl
split_loop_separators (c ∷ gap) rest args q h =
    ap (λ t. split_loop t (gap ++ rest)) (split_char_separator c args [] q h.0)
    ∙ split_loop_separators gap rest args q h.1

split_loop-IsGap :
    (gap rest : Text) (args : List Text) (current : Text) (q : Option ℕ)
    → IsGap gap
    → split_loop (at args current none q) (gap ++ rest)
      ≡ split_loop (at (flush current args) [] none q) rest
unfolding split_loop
split_loop-IsGap [] rest args current q h = absurd (h.not_empty refl)
split_loop-IsGap (c ∷ gap) rest args current q h =
    ap (λ t. split_loop t (gap ++ rest)) (split_char_separator c args current q h.separators.0)
    ∙ split_loop_separators gap rest (flush current args) q h.separators.1

abbrev final : Splitter → List Text
final t = flush t.current t.args

flush_lem : (s : Text) (args : List Text) → s ≢ [] → flush s args ≡ args ++ s ∷ []
flush_lem [] args ne = absurd (ne refl)
flush_lem (c ∷ s) args ne = refl

split_loop-spread :
    (s : Text) (ps : List (Text × Text)) (args : List Text) (q : Option ℕ)
    → IsToken s
    → AreTokens ps
    → final (split_loop (at args [] none q) (spread s ps)) ≡ args ++ tokens s ps
split_loop-spread s [] args q h hs =
    ap (λ r. final (split_loop (at args [] none q) r)) (sym (append-nil s))
    ∙ ap final (split_loop-is_token s [] args [] none q h.balanced)
    ∙ unfold split_loop in flush_lem s args h.not_empty
split_loop-spread s ((gap, u) ∷ ps) args q h hs =
    let q' = last_quote none s q in
    ap final (split_loop-is_token s (gap ++ spread u ps) args [] none q h.balanced)
    ∙ ap final (split_loop-IsGap gap (spread u ps) args s q' hs.0)
    ∙ ap (λ a. final (split_loop (at a [] none q') (spread u ps))) (flush_lem s args h.not_empty)
    ∙ split_loop-spread u ps (args ++ s ∷ []) q' hs.1 hs.2
    ∙ append_assoc args (s ∷ []) (tokens u ps)

-- Splitting tokens with gaps between them gives back exactly the tokens, where a gap is one or
-- more spaces and tabs, and a token closes its quotes and has white space inside quotes only.
pub split_args-spread :
    (s : Text) (ps : List (Text × Text))
    → IsToken s
    → AreTokens ps
    → split_args (spread s ps) ≡ tokens s ps
unfolding split_args
split_args-spread s ps h hs = split_loop-spread s ps [] none h hs
