-- ===== src/Lxcpp/NetworkConfig.antt =====
-- The network interfaces that a container is configured with (libs/lxcpp/network-config.cpp and .hpp), and the addresses of
-- libs/lxcpp/network.hpp that they have.
pub mod Interfaces
use vasum.Prelude.{
  ℕ, zero, suc, Bool, true, false, List, [], ◌∷◌, ◌++◌, Text, ◌==◌, any, take, nat_eq,
  if◌then◌else◌, ◌&&◌, ◌||◌,
}
use vasum.Prelude.Int.{ℤ, pos}
use vasum.Prelude.Exec.{Outcome, ok, raised, crashed, network}

-- InetAddr: `addr` are the bytes of an in6_addr, the first four of which are the in_addr of an IPV4 address.
pub record InetAddr : Type 0 where
  pub is_ipv6 : Bool
  pub prefix : ℕ
  pub flags : ℕ
  pub addr : Text

abbrev pub same_kind : Bool → Bool → Bool
same_kind true b = b
same_kind false true = false
same_kind false false = true

unfoldable pub inet_eq : InetAddr → InetAddr → Bool
inet_eq a b =
    if same_kind a.is_ipv6 b.is_ipv6 && nat_eq a.prefix b.prefix
    then (if a.is_ipv6 then take 16 a.addr == take 16 b.addr else take 4 a.addr == take 4 b.addr)
    else false

pub data InterfaceConfigType : Type 0 where
  loopback bridge veth_bridged : InterfaceConfigType

pub data MacVLanMode : Type 0 where
  private vepa bridged passthru : MacVLanMode

pub record NetworkInterfaceConfig : Type 0 where
  pub host_if : Text
  pub zone_if : Text
  pub interface_type : InterfaceConfigType
  pub mode : MacVLanMode
  pub mtu : ℤ
  pub mac_address : Text
  pub tx_length : ℤ
  pub ip_addr_list : List InetAddr

unfoldable pub add_inet_addr : NetworkInterfaceConfig → InetAddr → Outcome NetworkInterfaceConfig
add_inet_addr i a =
    if any (λ b. inet_eq b a) i.ip_addr_list
    then raised network
    else ok (record i { ip_addr_list = i.ip_addr_list ++ a ∷ [] })

-- The constructor of NetworkInterfaceConfig.
abbrev pub new_interface :
    InterfaceConfigType → Text → Text → List InetAddr → MacVLanMode → NetworkInterfaceConfig
new_interface interface_type host_if zone_if addrs mode = record {
  host_if = host_if;
  zone_if = zone_if;
  interface_type = interface_type;
  mode = mode;
  mtu = pos 0;
  mac_address = [];
  tx_length = pos 0;
  ip_addr_list = addrs;
}

unfoldable pub add_interface_config :
    List NetworkInterfaceConfig
    → InterfaceConfigType
    → Text
    → Text
    → List InetAddr
    → MacVLanMode
    → Outcome (List NetworkInterfaceConfig)
add_interface_config interfaces interface_type host_if zone_if addrs mode =
    if any (λ entry. entry.host_if == host_if && entry.zone_if == zone_if) interfaces
    then raised network
    else ok (interfaces ++ new_interface interface_type host_if zone_if addrs mode ∷ [])

-- What the outcome for one interface, or for the ones behind it, makes of the list.
abbrev pub in_front :
    List NetworkInterfaceConfig
    → Outcome NetworkInterfaceConfig
    → Outcome (List NetworkInterfaceConfig)
in_front rest (ok i) = ok (i ∷ rest)
in_front rest (raised e) = raised e
in_front rest crashed = crashed

abbrev pub behind :
    NetworkInterfaceConfig
    → Outcome (List NetworkInterfaceConfig)
    → Outcome (List NetworkInterfaceConfig)
behind i (ok rest) = ok (i ∷ rest)
behind i (raised e) = raised e
behind i crashed = crashed

-- The first interface of that name, on either side, gets the address.
unfoldable pub add_inet_config :
    List NetworkInterfaceConfig → Text → InetAddr → Outcome (List NetworkInterfaceConfig)
unfolding add_inet_addr
add_inet_config [] ifname a = raised network
add_inet_config (i ∷ rest) ifname a =
    let later = behind i (add_inet_config rest ifname a) in
    if i.zone_if == ifname || i.host_if == ifname then in_front rest (add_inet_addr i a) else later
