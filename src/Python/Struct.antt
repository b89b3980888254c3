-- ===== src/Python/Struct.antt =====
-- Unsigned big-endian fields of `struct.pack` and `struct.unpack`.
use mathlib.Core.List.{reverse, reverse-reverse}
use native.Mathlib.Nat.{pow-suc}
use pynq_sdk.Prelude.{
  ℕ, zero, suc, ◌+◌, ◌*◌, ◌/◌, ◌%◌, ◌^◌, ◌<◌, ◌≡◌, refl, ◌∙◌, ap, [], ◌∷◌, arith, length,
  length-reverse, All, All-reverse,
}
use pynq_sdk.Python.Text.{Bytes}

-- The `n` low bytes of a number, the lowest first.
unfoldable pub low_bytes : ℕ → ℕ → Bytes
low_bytes zero v = []
low_bytes (suc n) v = v % 256 ∷ low_bytes n (v / 256)

unfoldable pub of_low_bytes : Bytes → ℕ
of_low_bytes [] = 0
of_low_bytes (b ∷ bs) = b + 256 * of_low_bytes bs

-- `struct.pack(">I", v)` for n = 4, `struct.pack(">Q", v)` for n = 8, of a value in range
unfoldable pub be : ℕ → ℕ → Bytes
unfolding low_bytes
be n v = reverse (low_bytes n v)

unfoldable pub of_be : Bytes → ℕ
unfolding of_low_bytes
of_be bs = of_low_bytes (reverse bs)

abbrev pub IsByte : ℕ → Type 0
IsByte b = b < 256

length-low_bytes : (n v : ℕ) → length (low_bytes n v) ≡ n
unfolding low_bytes
length-low_bytes zero v = refl
length-low_bytes (suc n) v = ap suc (length-low_bytes n (v / 256))

pub length-be : (n v : ℕ) → length (be n v) ≡ n
unfolding be
length-be n v = length-reverse (low_bytes n v) ∙ length-low_bytes n v

of_low_bytes-low_bytes : (n v : ℕ) → v < 256 ^ n → of_low_bytes (low_bytes n v) ≡ v
unfolding low_bytes of_low_bytes
of_low_bytes-low_bytes zero v h = omega arith
of_low_bytes-low_bytes (suc n) v h =
    let less : v / 256 < 256 ^ n = omega (arith, pow-suc 256 n) in
    omega (arith, of_low_bytes-low_bytes n (v / 256) less)

pub of_be-be : (n v : ℕ) → v < 256 ^ n → of_be (be n v) ≡ v
unfolding be of_be
of_be-be n v h = rw (reverse-reverse (low_bytes n v)) (of_low_bytes-low_bytes n v h)

low_bytes-of_low_bytes : (bs : Bytes) → All IsByte bs → low_bytes (length bs) (of_low_bytes bs) ≡ bs
unfolding low_bytes of_low_bytes
low_bytes-of_low_bytes [] h = refl
low_bytes-of_low_bytes (b ∷ bs) h =
    let v = of_low_bytes bs in
    let low : (b + 256 * v) % 256 ≡ b = omega (arith, h.0) in
    let high : (b + 256 * v) / 256 ≡ v = omega (arith, h.0) in
    rw (low, high, low_bytes-of_low_bytes bs h.1)

pub be-of_be : (n : ℕ) (bs : Bytes) → length bs ≡ n → All IsByte bs → be n (of_be bs) ≡ bs
unfolding be of_be
be-of_be n bs e h =
    rw (← e, ← length-reverse bs, low_bytes-of_low_bytes (reverse bs) (All-reverse IsByte bs h))
      (reverse-reverse bs)

of_low_bytes-lt : (bs : Bytes) → All IsByte bs → of_low_bytes bs < 256 ^ length bs
unfolding of_low_bytes
of_low_bytes-lt [] h = omega arith
of_low_bytes-lt (b ∷ bs) h = omega (arith, pow-suc 256 (length bs), of_low_bytes-lt bs h.1)

pub of_be-lt : (n : ℕ) (bs : Bytes) → length bs ≡ n → All IsByte bs → of_be bs < 256 ^ n
unfolding of_be
of_be-lt n bs e h =
    rw (← e, ← length-reverse bs) (of_low_bytes-lt (reverse bs) (All-reverse IsByte bs h))

low_bytes-IsByte : (n v : ℕ) → All IsByte (low_bytes n v)
unfolding low_bytes
low_bytes-IsByte zero v = tt
low_bytes-IsByte (suc n) v = (omega arith, low_bytes-IsByte n (v / 256))

pub be-IsByte : (n v : ℕ) → All IsByte (be n v)
unfolding be
be-IsByte n v = All-reverse IsByte (low_bytes n v) (low_bytes-IsByte n v)
