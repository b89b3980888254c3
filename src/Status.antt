-- ===== src/Status.antt =====
-- The IEEE 488.2 registers of pynq_instrument/scpi_standard.py: module globals, so one set for the
-- whole process.
pub mod Byte
use Prim.Native.Nat.{bit_and, bit_or}
use pynq_sdk.Prelude.{ℕ, Bool, true, false, ◌==◌, if◌then◌else◌}

pub record Registers : Type 0 where
  pub esr : ℕ
  pub ese : ℕ
  pub sre : ℕ

abbrev pub esr_opc : ℕ
esr_opc = 0x01

abbrev pub esr_dde : ℕ
esr_dde = 0x08

abbrev pub stb_mav : ℕ
stb_mav = 0x10

abbrev pub stb_esb : ℕ
stb_esb = 0x20

-- Python's truth of an `int`
abbrev pub truthy : ℕ → Bool
truthy n = if n == 0 then false else true

unfoldable pub get_status_byte : Bool → Registers → ℕ
get_status_byte mav r =
    let esb : ℕ = if truthy (bit_and r.esr r.ese) then 1 else 0 in
    let stb = bit_or (if mav then stb_mav else 0) (if truthy esb then stb_esb else 0) in
    if truthy (bit_and stb r.sre) then bit_or stb 0x40 else stb

unfoldable pub set_esr_bit : ℕ → Registers → Registers
set_esr_bit bit r = record r { esr = bit_or r.esr bit }

unfoldable pub reset_registers : Registers → Registers
reset_registers r = record { esr = 0; ese = 0; sre = 0 }
