-- ===== src/Python/Bits.antt =====
-- `|` of numbers that have no binary digit in common.
use Prim.Native.Nat.{bit_or, bit_or-bitwise, digits, max}
use native.Mathlib.Nat.{pow-suc}
use pynq_sdk.Prelude.{ℕ, zero, suc, ◌+◌, ◌*◌, ◌/◌, ◌%◌, ◌^◌, ◌≤◌, ◌<◌, ◌≡◌, ap, arith}

-- The lowest `k` binary digits are 0.
abbrev pub IsAligned : ℕ → ℕ → Type 0
IsAligned zero a = Unit
IsAligned (suc k) a = (a % 2 ≡ 0) × IsAligned k (a / 2)

digits_sum :
    (fuel k a r : ℕ) → a ≤ fuel → IsAligned k a → r < 2 ^ k → digits (λ b. b) max fuel a r ≡ a + r
digits_sum zero k a r enough aligned small = omega arith
digits_sum (suc fuel) k zero r enough aligned small = omega arith
digits_sum (suc fuel) zero (suc a) r enough aligned small =
    let halves = digits_sum fuel zero (suc a / 2) (r / 2) (omega arith) tt (omega arith) in
    omega (arith, halves)
digits_sum (suc fuel) (suc k) (suc a) r enough (even, aligned) small =
    let halves =
      digits_sum fuel k (suc a / 2) (r / 2) (omega arith) aligned (omega (arith, pow-suc 2 k)) in
    omega (arith, halves)

pub bit_or_sum : (k a r : ℕ) → IsAligned k a → r < 2 ^ k → bit_or a r ≡ a + r
bit_or_sum k a r aligned small =
    simp bit_or-bitwise (digits_sum a k a r (omega arith) aligned small)

doubled : (v k : ℕ) → v * 2 ^ suc k ≡ v * 2 ^ k + v * 2 ^ k
doubled v k = omega (arith, ap (λ p. v * p) (pow-suc 2 k))

-- So are those of a number that was shifted by `k` digits.
pub shifted-IsAligned : (k v : ℕ) → IsAligned k (v * 2 ^ k)
shifted-IsAligned zero v = tt
shifted-IsAligned (suc k) v =
    let half : v * 2 ^ suc k / 2 ≡ v * 2 ^ k = omega (arith, doubled v k) in
    (omega (arith, doubled v k), rw half (shifted-IsAligned k v))
