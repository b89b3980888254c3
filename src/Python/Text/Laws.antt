-- ===== src/Python/Text/Laws.antt =====
-- Equality of texts, and stripping.
use mathlib.Core.List.{reverse, reverse-reverse, reverse-append}
use pynq_sdk.Prelude.{
  ℕ, ◌≢◌, ◌∙◌, sym, ap, ◌++◌, ◌≡◌, ◌↔◌, inl, inr, refl, true, false, Bool-cases, [], ◌∷◌, arith,
  All, All-reverse,
}
use pynq_sdk.Python.Text.{Text, text_eq, is_space, lstrip, strip}

text_eq_sound : (s t : Text) → text_eq s t ≡ true → s ≡ t
unfolding text_eq
text_eq_sound [] [] h = refl
text_eq_sound [] (b ∷ t) h = cc
text_eq_sound (a ∷ s) [] h = cc
text_eq_sound (a ∷ s) (b ∷ t) h = ground (arith, text_eq_sound s t)

pub text_eq_refl : (s : Text) → text_eq s s ≡ true
unfolding text_eq
text_eq_refl [] = refl
text_eq_refl (a ∷ s) = ground (arith, text_eq_refl s)

pub text_eq_iff : (s t : Text) → (text_eq s t ≡ true) ↔ (s ≡ t)
text_eq_iff s t = (text_eq_sound s t, λ e. rw e (text_eq_refl t))

abbrev pub NoSpace : Text → Type 0
NoSpace = All (λ c. is_space c ≡ false)

lstrip-NoSpace : (s : Text) → NoSpace s → lstrip s ≡ s
unfolding lstrip
lstrip-NoSpace [] h = refl
lstrip-NoSpace (c ∷ s) h = rw h.0

pub strip-NoSpace : (s : Text) → NoSpace s → strip s ≡ s
unfolding strip
strip-NoSpace s h =
    rw (lstrip-NoSpace s h)
      (rw (lstrip-NoSpace (reverse s) (All-reverse _ s h)) (reverse-reverse s))

-- What `lstrip` leaves begins with a visible character, or is empty.
abbrev pub HeadVisible : Text → Type 0
HeadVisible [] = Unit
HeadVisible (c ∷ s) = is_space c ≡ false

pub lstrip-HeadVisible : (s : Text) → HeadVisible (lstrip s)
unfolding lstrip
lstrip-HeadVisible [] = tt
lstrip-HeadVisible (c ∷ s) = elim (Bool-cases (is_space c)) [
  | inl blank ↦ rw blank (lstrip-HeadVisible s)
  | inr visible ↦ rw visible visible
]

lstrip_of_HeadVisible : (s : Text) → HeadVisible s → lstrip s ≡ s
unfolding lstrip
lstrip_of_HeadVisible [] h = refl
lstrip_of_HeadVisible (c ∷ s) h = rw h

abbrev pub LastVisible : Text → Type 0
LastVisible s = HeadVisible (reverse s)

HeadVisible-append : (s t : Text) → s ≢ [] → HeadVisible s → HeadVisible (s ++ t)
HeadVisible-append [] t ne h = absurd (ne refl)
HeadVisible-append (c ∷ s) t ne h = h

reverse_ne_nil : (s : Text) → s ≢ [] → reverse s ≢ []
reverse_ne_nil s ne e = ne (sym (reverse-reverse s) ∙ ap reverse e)

pub LastVisible-append : (s t : Text) → t ≢ [] → LastVisible t → LastVisible (s ++ t)
LastVisible-append s t ne h =
    rw (reverse-append s t) (HeadVisible-append (reverse t) (reverse s) (reverse_ne_nil t ne) h)

pub LastVisible-cons : (c : ℕ) (s : Text) → s ≢ [] → LastVisible s → LastVisible (c ∷ s)
LastVisible-cons c s ne h = LastVisible-append (c ∷ []) s ne h

pub LastVisible-singleton : (c : ℕ) → is_space c ≡ false → LastVisible (c ∷ [])
LastVisible-singleton c h = h

-- Only white space.
abbrev pub IsBlank : Text → Type 0
IsBlank = All (λ c. is_space c ≡ true)

lstrip-IsBlank_append : (p s : Text) → IsBlank p → lstrip (p ++ s) ≡ lstrip s
unfolding lstrip
lstrip-IsBlank_append [] s h = refl
lstrip-IsBlank_append (c ∷ p) s h = rw h.0 (lstrip-IsBlank_append p s h.1)

-- Stripping takes the white space off both ends, and nothing else.
pub strip_padded :
    (p s r : Text)
    → IsBlank p
    → IsBlank r
    → s ≢ []
    → HeadVisible s
    → LastVisible s
    → strip (p ++ (s ++ r)) ≡ s
unfolding strip
strip_padded p s r hp hr ne first last =
    rw
      (
        lstrip-IsBlank_append p (s ++ r) hp,
        lstrip_of_HeadVisible (s ++ r) (HeadVisible-append s r ne first),
        reverse-append s r,
        lstrip-IsBlank_append (reverse r) (reverse s) (All-reverse _ r hr),
        lstrip_of_HeadVisible (reverse s) last,
      )
      (reverse-reverse s)

pub strip_ends : (s : Text) → HeadVisible s → LastVisible s → strip s ≡ s
unfolding strip
strip_ends s first last =
    rw (lstrip_of_HeadVisible s first, lstrip_of_HeadVisible (reverse s) last) (reverse-reverse s)
