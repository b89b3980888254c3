-- ===== src/Discovery.antt =====
-- `MDNSAdvertiser` of pynq_instrument/discovery.py. What the machine and the package `zeroconf` answer
-- is a parameter; the calls of `zeroconf` are recorded in order. Upper case is that of ASCII.
pub mod Hostname
pub mod Service
pub mod Lifecycle
use pynq_sdk.Prelude.{
  ℕ, zero, suc, ◌+◌, ◌-◌, ◌*◌, ◌/◌, ◌%◌, ◌^◌, Bool, true, false, not, ◌&&◌, ◌||◌, Option, none,
  some, List, [], ◌∷◌, ◌++◌, map, leb, ltb, ◌==◌, if◌then◌else◌, length,
}
use pynq_sdk.Python.Text.{Text, Bytes, lit}
use pynq_sdk.Python.Int.{read_digits}
use pynq_sdk.Python.Exception.{Exception}

-- the arguments of `ServiceInfo`
pub record ServiceInfo : Type 0 where
  pub service_type : Text
  pub name : Text
  pub addresses : List Bytes
  pub port : ℕ
  pub properties : List (Text × Text)
  pub server : Text

-- A call of `zeroconf` that was made.
pub data Call : Type 0 where
  opened closed : Call
  registered unregistered : ServiceInfo → Call

-- What stands outside. A `none` where an exception is due means that the call goes through.
pub record Network : Type 0 where
  -- `uuid.getnode()`, which may raise
  pub getnode : Option ℕ
  -- the addresses of `socket.getaddrinfo(hostname, …)`, and the local end of the datagram socket
  pub host_addresses : Option (List Text)
  pub socket_address : Option Text
  pub zeroconf_installed : Bool
  pub service_info_error : ServiceInfo → Option Exception
  pub open_error : Option Exception
  pub register_error : ServiceInfo → Option Exception
  pub unregister_error : ServiceInfo → Option Exception
  pub close_error : Option Exception

pub record MdnsAdvertiser : Type 0 where
  pub manufacturer : Text
  pub model : Text
  pub port : ℕ
  pub prefix : Text
  -- `_zeroconf` and `_service_info`
  pub has_zeroconf : Bool
  pub service_info : Option ServiceInfo

unfoldable pub lower_char : ℕ → ℕ
lower_char c = if leb b'A' c && leb c b'Z' then c + 32 else c

-- `s.lower().replace(' ', '-')`
unfoldable pub host_part : Text → Text
unfolding lower_char
host_part = map (λ c. if c == b' ' then b'-' else lower_char c)

abbrev prefix_or : Text → Option Text → Text
prefix_or default none = default
prefix_or default (some []) = default
prefix_or default (some (c ∷ s)) = c ∷ s

unfoldable pub new_advertiser : Text → Text → ℕ → Option Text → MdnsAdvertiser
unfolding host_part
new_advertiser manufacturer model port hostname_prefix = record {
  manufacturer = manufacturer;
  model = model;
  port = port;
  prefix = prefix_or (host_part manufacturer ++ lit "-" ++ host_part model) hostname_prefix;
  has_zeroconf = false;
  service_info = none;
}

unfoldable pub hex_upper : ℕ → ℕ
hex_upper n = if ltb n 10 then b'0' + n else b'A' + (n - 10)

-- `f"{n:06X}"` for a number below 2^24
unfoldable pub hex6 : ℕ → Text
unfolding hex_upper
hex6 n =
    hex_upper (n / 16 ^ 5 % 16)
    ∷ hex_upper (n / 16 ^ 4 % 16)
    ∷ hex_upper (n / 16 ^ 3 % 16)
    ∷ hex_upper (n / 16 ^ 2 % 16)
    ∷ hex_upper (n / 16 % 16)
    ∷ hex_upper (n % 16)
    ∷ []

-- `s[-4:]` of six characters
abbrev pub last_four : Text → Text
last_four (a ∷ b ∷ s) = s
last_four s = s

-- `mac & 0xFFFFFF` is the remainder by 2^24
unfoldable pub last4_mac : Option ℕ → Text
unfolding hex6
last4_mac none = lit "0000"
last4_mac (some mac) = last_four (hex6 (mac % 2 ^ 24))

-- the parts of a dotted address, each with at most three digits and no leading zero
unfoldable pub split_dot : Text → Text × List Text
split_dot [] = ([], [])
split_dot (c ∷ s) =
    let (part, parts) = split_dot s in if c == b'.' then ([], part ∷ parts) else (c ∷ part, parts)

abbrev no_leading_zero : Text → Bool
no_leading_zero [] = false
no_leading_zero (c ∷ []) = true
no_leading_zero (c ∷ d ∷ s) = not (c == b'0')

abbrev all_digits : Text → Bool
all_digits [] = true
all_digits (c ∷ s) = leb b'0' c && leb c b'9' && all_digits s

abbrev in_octet : Option ℕ → Option ℕ
in_octet none = none
in_octet (some n) = if leb n 255 then some n else none

unfoldable pub octet : Text → Option ℕ
unfolding read_digits
octet s =
    if no_leading_zero s && all_digits s && leb (length s) 3
    then in_octet (read_digits 10 0 true s)
    else none

abbrev four : List (Option ℕ) → Option Bytes
four (some a ∷ some b ∷ some c ∷ some d ∷ []) = some (a ∷ b ∷ c ∷ d ∷ [])
four _ = none

-- `ipaddress.IPv4Address(ip)`, and the bytes that `socket.inet_aton` makes of such an address
unfoldable pub parse_ipv4 : Text → Option Bytes
unfolding split_dot octet
parse_ipv4 ip = let (part, parts) = split_dot ip in four (map octet (part ∷ parts))

-- `addr.is_loopback`
unfoldable pub is_loopback : Bytes → Bool
is_loopback [] = false
is_loopback (a ∷ bs) = a == 127

-- `if not addr.is_loopback: addrs.append(…)`; an address that does not parse is passed over
abbrev keep_address : Option Bytes → List Bytes → List Bytes
unfolding is_loopback
keep_address none addrs = addrs
keep_address (some addr) addrs = if is_loopback addr then addrs else addr ∷ addrs

unfoldable pub scan_addresses : List Text → List Bytes
unfolding parse_ipv4 keep_address
scan_addresses [] = []
scan_addresses (ip ∷ ips) = let rest = scan_addresses ips in keep_address (parse_ipv4 ip) rest

abbrev scanned : Option (List Text) → List Bytes
unfolding scan_addresses
scanned none = []
scanned (some ips) = scan_addresses ips

abbrev one_address : Option Bytes → List Bytes
one_address none = []
one_address (some addr) = addr ∷ []

abbrev fallback : Option Text → List Bytes
unfolding parse_ipv4
fallback none = []
fallback (some ip) = one_address (parse_ipv4 ip)

abbrev or_fallback : List Bytes → Option Text → List Bytes
unfolding fallback
or_fallback [] ip = fallback ip
or_fallback (a ∷ addrs) ip = a ∷ addrs

unfoldable pub local_addresses : Network → List Bytes
unfolding scanned or_fallback
local_addresses n = or_fallback (scanned n.host_addresses) n.socket_address
