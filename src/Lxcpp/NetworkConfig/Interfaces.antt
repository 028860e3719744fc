-- ===== src/Lxcpp/NetworkConfig/Interfaces.antt =====
-- Which interfaces the network configuration keeps apart, and which one gets an address (libs/lxcpp/network-config.cpp).
use vasum.Prelude.{
  ◌≡◌, ◌⊎◌, inl, inr, refl, ap, ◌∙◌, true, false, List, [], ◌∷◌, ◌++◌, Text, ◌==◌, eq_iff, any, All,
  Any, Bool-cases, ◌&&◌, ◌||◌, arith,
}
use vasum.Prelude.Exec.{Outcome, ok, raised, crashed, network}
use vasum.Lxcpp.NetworkConfig.{
  InetAddr, InterfaceConfigType, MacVLanMode, NetworkInterfaceConfig, add_inet_addr,
  add_interface_config, add_inet_config, in_front, behind, new_interface,
}

-- The name is that of the interface, on the side of the container or of the host.
abbrev pub IsNamed : Text → NetworkInterfaceConfig → Type 0
IsNamed name i = (i.zone_if ≡ name) ⊎ (i.host_if ≡ name)

named→true :
    (name : Text) (i : NetworkInterfaceConfig)
    → (i.zone_if == name || i.host_if == name) ≡ true
    → IsNamed name i
named→true name i h = ground (arith, eq_iff i.zone_if name, eq_iff i.host_if name)

unnamed :
    (name : Text) (i : NetworkInterfaceConfig)
    → (i.zone_if == name || i.host_if == name) ≡ false
    → ¬ IsNamed name i
unnamed name i h n = ground (arith, eq_iff i.zone_if name, eq_iff i.host_if name)

in_front-inv :
    (rest : List NetworkInterfaceConfig) (r : Outcome NetworkInterfaceConfig)
    {l : List NetworkInterfaceConfig}
    → in_front rest r ≡ ok l
    → (i : NetworkInterfaceConfig) × (r ≡ ok i) × (l ≡ i ∷ rest)
in_front-inv rest (ok i) e = (i, refl, cc)
in_front-inv rest (raised x) e = cc
in_front-inv rest crashed e = cc

behind-inv :
    (i : NetworkInterfaceConfig) (r : Outcome (List NetworkInterfaceConfig))
    {l : List NetworkInterfaceConfig}
    → behind i r ≡ ok l
    → (rest : List NetworkInterfaceConfig) × (r ≡ ok rest) × (l ≡ i ∷ rest)
behind-inv i (ok rest) e = (rest, refl, cc)
behind-inv i (raised x) e = cc
behind-inv i crashed e = cc

-- Where an address is added by the name of an interface, it is the first interface of that name, on either side, that gets
-- it, and the others stay as they are.
pub add_inet_config_first :
    (l l' : List NetworkInterfaceConfig) (name : Text) (a : InetAddr)
    → add_inet_config l name a ≡ ok l'
    → (before : List NetworkInterfaceConfig) × (after : List NetworkInterfaceConfig)
      × (i : NetworkInterfaceConfig) × (i' : NetworkInterfaceConfig) × (l ≡ before ++ i ∷ after)
      × (l' ≡ before ++ i' ∷ after)
      × All (λ j. ¬ IsNamed name j) before
      × IsNamed name i
      × (add_inet_addr i a ≡ ok i')
unfolding add_inet_config
add_inet_config_first [] l' name a e = cc
add_inet_config_first (i ∷ rest) l' name a e =
    elim (Bool-cases (i.zone_if == name || i.host_if == name)) [
      | inl here ↦
          let (i', added, same) = in_front-inv rest (add_inet_addr i a) (rw here at e) in
          ([], rest, i, i', refl, same, tt, named→true name i here, added)
      | inr later ↦
          let (rest', added, same) = behind-inv i (add_inet_config rest name a) (rw later at e) in
          let (before, after, j, j', was, is', none', named, put) =
            add_inet_config_first rest rest' name a added in
          (
            i ∷ before,
            after,
            j,
            j',
            ap (λ t. i ∷ t) was,
            same ∙ ap (λ t. i ∷ t) is',
            (unnamed name i later, none'),
            named,
            put,
          )
    ]

-- An interface is refused where one has both its names already, and only there; otherwise it stands behind the others.
pub add_interface_config_cases :
    (l : List NetworkInterfaceConfig) (kind : InterfaceConfigType) (host zone : Text)
    (addrs : List InetAddr) (mode : MacVLanMode)
    → (Any (λ i. (i.host_if ≡ host) × (i.zone_if ≡ zone)) l
        × (add_interface_config l kind host zone addrs mode ≡ raised network))
      ⊎ (All (λ i. ¬ ((i.host_if ≡ host) × (i.zone_if ≡ zone))) l
          × (add_interface_config l kind host zone addrs mode
              ≡ ok (l ++ new_interface kind host zone addrs mode ∷ [])))
unfolding add_interface_config
add_interface_config_cases l kind host zone addrs mode =
    elim (Bool-cases (any (λ i. i.host_if == host && i.zone_if == zone) l)) [
      | inl e ↦ inl (found l e, rw e refl)
      | inr e ↦ inr (absent l e, rw e refl)
    ]
  where
    found :
        (l : List NetworkInterfaceConfig)
        → any (λ i. i.host_if == host && i.zone_if == zone) l ≡ true
        → Any (λ i. (i.host_if ≡ host) × (i.zone_if ≡ zone)) l
    found [] e = cc
    found (i ∷ l) e = ground (arith, found l, eq_iff i.host_if host, eq_iff i.zone_if zone)

    absent :
        (l : List NetworkInterfaceConfig)
        → any (λ i. i.host_if == host && i.zone_if == zone) l ≡ false
        → All (λ i. ¬ ((i.host_if ≡ host) × (i.zone_if ≡ zone))) l
    absent [] e = tt
    absent (i ∷ l) e = ground (arith, absent l, eq_iff i.host_if host, eq_iff i.zone_if zone)
