-- ===== src/Python/Path.antt =====
-- `os.path.basename`, and the first part of `os.path.splitext` of a base name (POSIX).
use pynq_sdk.Prelude.{ℕ, Bool, false, ◌||◌, [], ◌∷◌, ◌==◌, if◌then◌else◌}
use pynq_sdk.Python.Text.{Text}

unfoldable pub has_char : ℕ → Text → Bool
has_char c [] = false
has_char c (d ∷ s) = d == c || has_char c s

-- What stands behind the last '/'.
unfoldable pub basename : Text → Text
unfolding has_char
basename [] = []
basename (c ∷ s) =
    let rest = basename s in if has_char b'/' s then rest else if c == b'/' then s else c ∷ s

-- What stands before the last '.', if there is one.
unfoldable pub cut_extension : Text → Text
unfolding has_char
cut_extension [] = []
cut_extension (c ∷ s) =
    let rest = cut_extension s in
    if has_char b'.' s then c ∷ rest else if c == b'.' then [] else c ∷ s

-- Leading dots belong to the name.
unfoldable pub splitext_root : Text → Text
unfolding cut_extension
splitext_root [] = []
splitext_root (c ∷ s) =
    let rest = splitext_root s in c ∷ (if c == b'.' then rest else cut_extension s)
