-- ===== src/Backend/Registers.antt =====
-- The mock hardware behaves as memory.
use pynq_sdk.Prelude.{
  Option-cases, inl, inr, ℕ, ◌≡◌, refl, Option, none, some, arith, if◌then◌else◌,
}
use pynq_sdk.Python.Text.{Text}
use pynq_sdk.Python.Text.Laws.{text_eq_iff}
use pynq_sdk.Python.Int.{ℤ}
use pynq_sdk.Python.Exception.{ok}
use pynq_sdk.Python.Dict
use pynq_sdk.Python.Dict.{get-put, ◌=?◌, nat_key, text_key}
use pynq_sdk.Backend.{
  MockBackend, MockIp, MockGpio, get_mock_ip, write_mock_ip, read_mock_ip, write_gpio, read_gpio,
}

-- After a write to an IP that the mock overlay has, the register reads what was written; no other
-- register changes.
pub read_mock_ip-write_mock_ip :
    (name other : Text) (offset at : ℕ) (value : ℤ) (b : MockBackend) {ip : MockIp}
    → get_mock_ip name b ≡ ok ip
    → read_mock_ip other at (write_mock_ip name offset value b) ≡ (
        if name =? other
        then (if offset =? at then ok value else read_mock_ip other at b)
        else read_mock_ip other at b)
unfolding read_mock_ip write_mock_ip
read_mock_ip-write_mock_ip name other offset at value b {ip} h =
    elim (Option-cases (Dict.get name b.ips)) [
      | inl absent ↦ ground (arith, absent)
      | inr (x, present) ↦
          let new : MockIp = record x { registers = Dict.put offset value x.registers } in
          ground (
            arith,
            present,
            get-put name other new b.ips,
            get-put offset at value x.registers,
            text_eq_iff name other,
          )
    ]

value_or_zero : Option MockGpio → ℤ
value_or_zero none = ℤ.pos 0
value_or_zero (some g) = g.value

read_gpio-value_or_zero :
    (at : ℕ) (b : MockBackend) → (read_gpio at b).0 ≡ value_or_zero (Dict.get at b.gpios)
unfolding read_gpio value_or_zero
read_gpio-value_or_zero at b = elim (Option-cases (Dict.get at b.gpios)) [
  | inl absent ↦ ground (arith, absent)
  | inr (g, present) ↦ ground (arith, present)
]

value_or_zero-write_gpio :
    (index at : ℕ) (value : ℤ) (b : MockBackend) (o : Option MockGpio)
    → Dict.get index b.gpios ≡ o
    → value_or_zero (Dict.get at (write_gpio index value b).gpios)
      ≡ (if index =? at then value else value_or_zero (Dict.get at b.gpios))
unfolding write_gpio value_or_zero
value_or_zero-write_gpio index at value b none e =
    let g : MockGpio = record { index = index; value = value } in
    let fresh : MockGpio = record { index = index; value = ℤ.pos 0 } in
    ground
      (arith, e, get-put index at g (Dict.put index fresh b.gpios), get-put index at fresh b.gpios)
value_or_zero-write_gpio index at value b (some g) e =
    ground (arith, e, get-put index at (record g { value = value }) b.gpios)

-- A pin reads what was last written to it, and 0 before.
pub read_gpio-write_gpio :
    (index at : ℕ) (value : ℤ) (b : MockBackend)
    → (read_gpio at (write_gpio index value b)).0
      ≡ (if index =? at then value else (read_gpio at b).0)
read_gpio-write_gpio index at value b =
    rw (read_gpio-value_or_zero at (write_gpio index value b), read_gpio-value_or_zero at b)
      (value_or_zero-write_gpio index at value b (Dict.get index b.gpios) refl)
