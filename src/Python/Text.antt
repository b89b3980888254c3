-- ===== src/Python/Text.antt =====
-- Python's `str`, as the list of its code points. Everything the instrument parses was decoded by
-- `decode("ascii", errors="replace")`, so a code point is below 128 or is U+FFFD; `isspace` and
-- `upper` are those of that range.
pub mod Laws
use Prim.Native.Char.{code}
use mathlib.Core.List.{reverse}
use pynq_sdk.Prelude.{
  ℕ, ◌-◌, Bool, true, false, ◌&&◌, ◌||◌, List, [], ◌∷◌, map, String, leb, ltb, ◌==◌, if◌then◌else◌,
}

abbrev pub Text : Type 0
Text = List ℕ

abbrev pub Bytes : Type 0
Bytes = List ℕ

-- A literal of the source.
abbrev pub lit : String → Text
lit String.[] = []
lit (String.◌∷◌ c s) = code c ∷ lit s

unfoldable pub text_eq : Text → Text → Bool
text_eq [] [] = true
text_eq [] (b ∷ t) = false
text_eq (a ∷ s) [] = false
text_eq (a ∷ s) (b ∷ t) = a == b && text_eq s t

-- '\t' to '\r', the four separators 0x1c to 0x1f, and the blank
unfoldable pub is_space : ℕ → Bool
is_space c = (leb 9 c && leb c 13) || (leb 28 c && leb c 32)

unfoldable pub upper_char : ℕ → ℕ
upper_char c = if leb b'a' c && leb c b'z' then c - 32 else c

unfoldable pub upper : Text → Text
unfolding upper_char
upper = map upper_char

unfoldable pub lstrip : Text → Text
unfolding is_space
lstrip [] = []
lstrip (c ∷ s) = if is_space c then lstrip s else c ∷ s

unfoldable pub strip : Text → Text
unfolding lstrip
strip s = reverse (lstrip (reverse (lstrip s)))

unfoldable pub starts_with : Text → Text → Bool
starts_with [] s = true
starts_with (p ∷ ps) [] = false
starts_with (p ∷ ps) (c ∷ s) = p == c && starts_with ps s

-- `s.encode("ascii", errors="replace")` and `b.decode("ascii", errors="replace")`
unfoldable pub encode_ascii : Text → Bytes
encode_ascii = map (λ c. if ltb c 128 then c else b'?')

unfoldable pub decode_ascii : Bytes → Text
decode_ascii = map (λ b. if ltb b 128 then b else 0xfffd)
