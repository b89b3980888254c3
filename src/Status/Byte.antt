-- ===== src/Status/Byte.antt =====
-- The bits of the status byte, by arithmetic.
use Prim.Native.Nat.{bit_and, bit_or}
use pynq_sdk.Prelude.{
  ◌≤◌, inl, inr, Bool-cases, ℕ, zero, suc, ◌+◌, ◌*◌, ◌/◌, ◌%◌, ◌<◌, ◌≡◌, refl, Bool, true, false,
  arith, ◌==◌, ==_iff, if◌then◌else◌, ap, ◌∙◌,
}
use pynq_sdk.Status.{Registers, truthy, get_status_byte}

-- Whether a test holds at `count` numbers from `start` on.
holds_from : (ℕ → Bool) → ℕ → ℕ → Bool
holds_from test start zero = true
holds_from test start (suc count) = if test start then holds_from test (suc start) count else false

holds_from-test :
    (test : ℕ → Bool) (start count n : ℕ)
    → holds_from test start count ≡ true
    → start ≤ n
    → n < start + count
    → test n ≡ true
unfolding holds_from
holds_from-test test start zero n table low high = absurd (omega arith)
holds_from-test test start (suc count) n table low high = elim (Bool-cases (start == n)) [
  | inl here ↦ ground arith
  | inr later ↦ holds_from-test test (suc start) count n (ground arith) (ground arith) (omega arith)
]

byte_table : (test : ℕ → Bool) (n : ℕ) → holds_from test 0 256 ≡ true → n < 256 → test n ≡ true
byte_table test n table h = holds_from-test test 0 256 n table (omega arith) (omega arith)

-- Bit `k` of a number, as 0 or 1.
abbrev pub bit : ℕ → ℕ → ℕ
bit n zero = n % 2
bit n (suc k) = bit (n / 2) k

abbrev pub bool_bit : Bool → ℕ
bool_bit true = 1
bool_bit false = 0

-- The service request, from the two summary bits and the enable mask.
abbrev pub requests : Bool → Bool → ℕ → Bool
requests mav esb sre = truthy (bool_bit mav * bit sre 4 + bool_bit esb * bit sre 5)

-- The status byte, put together from its bits.
abbrev pub byte_of : Bool → Bool → ℕ → ℕ
byte_of mav esb sre = 16 * bool_bit mav + 32 * bool_bit esb + 64 * bool_bit (requests mav esb sre)

abbrev summary : Bool → Bool → ℕ → ℕ
summary mav esb sre =
    let stb = bit_or (if mav then 0x10 else 0) (if esb then 0x20 else 0) in
    if truthy (bit_and stb sre) then bit_or stb 0x40 else stb

table :
    (mav esb : Bool) → holds_from (λ sre. summary mav esb sre == byte_of mav esb sre) 0 256 ≡ true
unfolding holds_from
table true true = refl
table true false = refl
table false true = refl
table false false = refl

summary_lem : (mav esb : Bool) (sre : ℕ) → sre < 256 → summary mav esb sre ≡ byte_of mav esb sre
summary_lem mav esb sre h =
    (==_iff _ _).0 (byte_table (λ s. summary mav esb s == byte_of mav esb s) sre (table mav esb) h)

truthy_bit : (b : Bool) → truthy (if b then 1 else 0) ≡ b
truthy_bit true = refl
truthy_bit false = refl

-- With a byte in the enable register, the status byte is MAV (bit 4), the event summary (bit 5: an
-- enabled event bit is set) and the service request (bit 6: a summary bit is set that the mask
-- enables).
pub get_status_byte-byte_of :
    (mav : Bool) (r : Registers)
    → r.sre < 256
    → get_status_byte mav r ≡ byte_of mav (truthy (bit_and r.esr r.ese)) r.sre
unfolding get_status_byte
get_status_byte-byte_of mav r h =
    let e = truthy (bit_and r.esr r.ese) in
    ap (λ b. summary mav b r.sre) (truthy_bit e) ∙ summary_lem mav e r.sre h
