-- ===== src/Discovery/Service.antt =====
-- `start` and `stop` of `MDNSAdvertiser`: they run `_register` and `_unregister` in an executor.
use pynq_sdk.Prelude.{Bool, true, false, Option, none, some, List, [], ◌∷◌, ◌++◌, if◌then◌else◌}
use pynq_sdk.Python.Text.{Text, Bytes, lit}
use pynq_sdk.Python.Exception.{Exception}
use pynq_sdk.Discovery.{
  ServiceInfo, Call, opened, closed, registered, unregistered, Network, MdnsAdvertiser, last4_mac,
  local_addresses,
}

-- the advertiser, and the calls of `zeroconf` so far
pub record Advertising : Type 0 where
  pub advertiser : MdnsAdvertiser
  pub calls : List Call

abbrev pub service_type : Text
service_type = lit "_hislip._tcp.local."

module _ (n : Network) where
  unfoldable pub hostname : MdnsAdvertiser → Text
  unfolding last4_mac
  hostname a = a.prefix ++ lit "-" ++ last4_mac n.getnode

  unfoldable pub info_of : MdnsAdvertiser → List Bytes → ServiceInfo
  unfolding hostname
  info_of a addresses = record {
    service_type = service_type;
    name = hostname a ++ lit "." ++ service_type;
    addresses = addresses;
    port = a.port;
    properties = (lit "manufacturer", a.manufacturer) ∷ (lit "model", a.model) ∷ [];
    server = hostname a ++ lit ".local.";
  }

  abbrev pub log : List Call → Advertising → Advertising
  log calls s = record s { calls = s.calls ++ calls }

  -- `zc.register_service(info)`, and the two assignments; what it raises is logged
  abbrev pub registering : ServiceInfo → Option Exception → Advertising → Advertising
  registering info (some e) s = log (opened ∷ []) s
  registering info none s = log (opened ∷ registered info ∷ []) (record s {
    advertiser = record s.advertiser { has_zeroconf = true; service_info = some info };
  })

  -- `Zeroconf()`
  abbrev pub opening : ServiceInfo → Option Exception → Advertising → Advertising
  opening info (some e) s = s
  opening info none s = registering info (n.register_error info) s

  -- `ServiceInfo(…)`
  abbrev pub making : ServiceInfo → Option Exception → Advertising → Advertising
  making info (some e) s = s
  making info none s = opening info n.open_error s

  unfoldable pub with_addresses : List Bytes → Advertising → Advertising
  unfolding info_of
  with_addresses [] s = s
  with_addresses (addr ∷ addrs) s =
      let info = info_of s.advertiser (addr ∷ addrs) in making info (n.service_info_error info) s

  -- `_register`
  unfoldable pub register : Advertising → Advertising
  unfolding with_addresses local_addresses
  register s = if n.zeroconf_installed then with_addresses (local_addresses n) s else s

  -- `close()` behind `unregister_service(info)`
  abbrev pub closing : ServiceInfo → Option Exception → Option Exception → Advertising → Advertising
  closing info (some e) close s = s
  closing info none (some e) s = log (unregistered info ∷ []) s
  closing info none none s = log (unregistered info ∷ closed ∷ []) s

  abbrev pub unregistering : Bool → Option ServiceInfo → Advertising → Advertising
  unregistering false info s = s
  unregistering true none s = s
  unregistering true (some info) s = closing info (n.unregister_error info) n.close_error s

  -- the last two assignments
  abbrev pub reset : Advertising → Advertising
  reset s = record s {
    advertiser = record s.advertiser { has_zeroconf = false; service_info = none };
  }

  -- `_unregister`: whatever the calls came to, both fields are reset
  unfoldable pub unregister : Advertising → Advertising
  unregister s = reset (unregistering s.advertiser.has_zeroconf s.advertiser.service_info s)
