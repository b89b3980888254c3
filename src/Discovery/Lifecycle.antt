-- ===== src/Discovery/Lifecycle.antt =====
-- What starting and stopping an advertiser leaves behind.
use pynq_sdk.Prelude.{
  ◌≡◌, ◌≢◌, ◌⊎◌, refl, sym, ◌∙◌, ap, Bool, true, false, inl, inr, Option, none, some, if◌then◌else◌,
  List, [], ◌∷◌, ◌++◌,
}
use mathlib.Core.List.{append_assoc}
use pynq_sdk.Python.Text.{Bytes}
use pynq_sdk.Python.Exception.{Exception}
use pynq_sdk.Discovery.{
  ServiceInfo, Call, opened, closed, registered, unregistered, Network, local_addresses,
}
use pynq_sdk.Discovery.Service.{
  Advertising, log, info_of, registering, opening, making, with_addresses, register, closing, reset,
  unregister,
}

module _ (n : Network) where
  -- What a start can come to: nothing is registered, or it is under these addresses.
  data Started (s : Advertising) : Advertising → Type 0 where
    nothing : Started s s
    only_opened : Started s (log n (opened ∷ []) s)
    advertised :
        (info : ServiceInfo)
        → info.addresses ≡ local_addresses n
        → info.addresses ≢ []
        → Started s (registering n info none s)

  module _ (s : Advertising) (info : ServiceInfo) (e : info.addresses ≡ local_addresses n)
      (ne : info.addresses ≢ []) where
    registering-Started : (o : Option Exception) → Started s (registering n info o s)
    registering-Started none = advertised info e ne
    registering-Started (some x) = only_opened

    opening-Started : (o : Option Exception) → Started s (opening n info o s)
    opening-Started none = registering-Started (n.register_error info)
    opening-Started (some x) = nothing

    making-Started : (o : Option Exception) → Started s (making n info o s)
    making-Started none = opening-Started n.open_error
    making-Started (some x) = nothing

  with_addresses-Started :
      (s : Advertising) (addrs : List Bytes)
      → local_addresses n ≡ addrs
      → Started s (with_addresses n addrs s)
  unfolding with_addresses info_of
  with_addresses-Started s [] e = nothing
  with_addresses-Started s (a ∷ addrs) e =
      let info = info_of n s.advertiser (a ∷ addrs) in
      making-Started s info (sym e) (λ h. cc) (n.service_info_error info)

  register-Started : (s : Advertising) → Started s (register n s)
  unfolding register
  register-Started s = by_import n.zeroconf_installed
    where
      by_import : (b : Bool) → Started s (if b then with_addresses n (local_addresses n) s else s)
      by_import true = with_addresses-Started s (local_addresses n) refl
      by_import false = nothing

  -- Nothing was called; or the package was opened but did not register; or a service with the local
  -- addresses, of which there is at least one, was registered and then withdrawn.
  abbrev pub IsWithdrawn : List Call → List Call → Type 0
  IsWithdrawn before after =
      (after ≡ before)
      ⊎ ((after ≡ before ++ opened ∷ [])
          ⊎ ((info : ServiceInfo) × (info.addresses ≡ local_addresses n)
              × (info.addresses ≢ [])
              × (after ≡ before ++ opened ∷ registered info ∷ unregistered info ∷ closed ∷ [])))

  closing-none :
      (info : ServiceInfo) (s : Advertising) (u c : Option Exception)
      → u ≡ none
      → c ≡ none
      → closing n info u c s ≡ log n (unregistered info ∷ closed ∷ []) s
  closing-none info s u c eu ec = rw (eu, ec) refl

  -- Starting and then stopping an advertiser that was idle, where `zeroconf` withdraws and closes
  -- without an error: the advertiser is as before, and what was registered, if anything, has been
  -- withdrawn and closed.
  pub unregister-register :
      (s : Advertising)
      → ((info : ServiceInfo) → n.unregister_error info ≡ none)
      → n.close_error ≡ none
      → ((unregister n (register n (reset n s))).advertiser ≡ (reset n s).advertiser)
        × IsWithdrawn s.calls (unregister n (register n (reset n s))).calls
  unfolding unregister
  unregister-register s withdraws closes =
      by_start (register n (reset n s)) (register-Started (reset n s))
    where
      by_start :
          (s' : Advertising)
          → Started (reset n s) s'
          → ((unregister n s').advertiser ≡ (reset n s).advertiser)
            × IsWithdrawn s.calls (unregister n s').calls
      by_start _ nothing = (refl, inl refl)
      by_start _ only_opened = (refl, inr (inl refl))
      by_start _ (advertised info e ne) =
          let up = registering n info none (reset n s) in
          let down =
            closing-none info up (n.unregister_error info) n.close_error (withdraws info) closes in
          (
            ap (λ r. (reset n r).advertiser) down,
            inr (
                inr (
                  info,
                  e,
                  ne,
                  ap (λ r. r.calls) down
                      ∙ append_assoc s.calls (opened ∷ registered info ∷ [])
                          (unregistered info ∷ closed ∷ []),
                )),
          )
