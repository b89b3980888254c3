-- ===== src/Discovery/Hostname.antt =====
-- The names that an advertiser is known by, and the addresses it gives.
use pynq_sdk.Prelude.{
  ℕ, ◌+◌, ◌-◌, ◌*◌, ◌/◌, ◌%◌, ◌^◌, ◌<◌, ◌≡◌, ◌≢◌, ◌⊎◌, false, Bool-cases, inl, inr, Option, none,
  some, List, [], ◌∷◌, arith, All, leb, ◌==◌, ◌&&◌, if◌then◌else◌,
}
use pynq_sdk.Python.Text.{Text, Bytes}
use pynq_sdk.Discovery.{
  host_part, lower_char, hex_upper, hex6, last4_mac, parse_ipv4, keep_address, scan_addresses,
  is_loopback,
}

-- a character that `lower().replace(' ', '-')` can leave
abbrev pub IsHostChar : ℕ → Type 0
IsHostChar c = (c ≢ b' ') × ((c < b'A') ⊎ (b'Z' < c))

lower_char-IsHostChar : (c : ℕ) → (c == b' ') ≡ false → IsHostChar (lower_char c)
unfolding lower_char
lower_char-IsHostChar c h = elim (Bool-cases (leb b'A' c && leb c b'Z')) [
  | inl capital ↦ rw capital (ground arith, ground arith)
  | inr other ↦ rw other (ground arith, ground arith)
]

pub host_part-IsHostChar : (s : Text) → All IsHostChar (host_part s)
unfolding host_part lower_char
host_part-IsHostChar [] = tt
host_part-IsHostChar (c ∷ s) = elim (Bool-cases (c == b' ')) [
  | inl blank ↦ rw blank (omega arith, host_part-IsHostChar s)
  | inr other ↦ rw other (lower_char-IsHostChar c other, host_part-IsHostChar s)
]

hex_value_upper : ℕ → ℕ
hex_value_upper c = if leb c b'9' then c - b'0' else c - b'A' + 10

of_hex_upper : ℕ → Text → ℕ
of_hex_upper acc [] = acc
of_hex_upper acc (c ∷ s) = of_hex_upper (acc * 16 + hex_value_upper c) s

hex_value_upper-hex_upper : (n : ℕ) → n < 16 → hex_value_upper (hex_upper n) ≡ n
unfolding hex_value_upper hex_upper
hex_value_upper-hex_upper n h = ground arith

last4_mac-value : (mac : ℕ) → of_hex_upper 0 (last4_mac (some mac)) ≡ mac % 2 ^ 16
unfolding of_hex_upper last4_mac hex6
last4_mac-value mac =
    let low = mac % 2 ^ 24 in
    rw
      (
        hex_value_upper-hex_upper (low / 16 ^ 3 % 16) (omega arith),
        hex_value_upper-hex_upper (low / 16 ^ 2 % 16) (omega arith),
        hex_value_upper-hex_upper (low / 16 % 16) (omega arith),
        hex_value_upper-hex_upper (low % 16) (omega arith),
      )
      (omega arith)

NotLoopback : Bytes → Type 0
NotLoopback addr = is_loopback addr ≡ false

scan_addresses-NotLoopback : (ips : List Text) → All NotLoopback (scan_addresses ips)
unfolding scan_addresses keep_address NotLoopback
scan_addresses-NotLoopback [] = tt
scan_addresses-NotLoopback (ip ∷ ips) =
    by_address (scan_addresses ips) (parse_ipv4 ip) (scan_addresses-NotLoopback ips)
  where
    by_address :
        (addrs : List Bytes) (o : Option Bytes)
        → All NotLoopback addrs
        → All NotLoopback (keep_address o addrs)
    by_address addrs none h = h
    by_address addrs (some addr) h = elim (Bool-cases (is_loopback addr)) [
      | inl loop ↦ rw loop h
      | inr outside ↦ rw outside (outside, h)
    ]
