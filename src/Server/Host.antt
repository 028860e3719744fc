-- ===== src/Server/Host.antt =====
-- What the zones and their manager call outside of the modelled code, over an abstract world: liblxc and
-- the utils library (`lxc`), the provisioning calls, the key-value store of cargo, boost's paths, the
-- virtual terminals, the daemon's file system, and the network devices of server/netdev.cpp.
use vasum.Prelude.{ℕ, Bool, List, Text, lit, ◌++◌}
use vasum.Prelude.Int.{ℤ}
use vasum.Prelude.Exec.{Exec}
use vasum.Lxc.{LxcApi}
use vasum.Server.Provision.{Provision, ProvisionHost}

-- server/zone-config.hpp
pub record ZoneConfig : Type 0 where
  pub zone_template : Text
  pub init_with_args : List Text
  pub switch_to_default_after_timeout : Bool
  pub cpu_quota_foreground : ℤ
  pub cpu_quota_background : ℤ
  pub valid_link_prefixes : List Text
  pub shutdown_timeout : ℤ

pub record ZoneDynamicConfig : Type 0 where
  pub requested_state : Text
  pub ipv4_gateway : Text
  pub ipv4 : Text
  pub vt : ℤ
  pub run_mount_point : Text

-- server/zones-manager-config.hpp
pub record ZonesManagerDynamicConfig : Type 0 where
  pub zone_ids : List Text
  pub default_id : Text

-- The calls of server/netdev.cpp that change something.
pub data NetdevCall : Type 0 where
  set_attrs : Text → List (Text × Text) → NetdevCall
  create_veth : Text → Text → NetdevCall
  create_macvlan : Text → Text → ℕ → NetdevCall
  move_phys : Text → NetdevCall
  destroy_netdev : Text → NetdevCall
  delete_ip_address : Text → Text → NetdevCall

pub record Host (W : Type 0) : Type 0 where
  pub lxc : LxcApi W
  pub provisions : ProvisionHost W
  pub load_zone_config : Text → Text → Text → Exec W ZoneConfig
  pub load_zone_dynamic : Text → Text → Text → Exec W ZoneDynamicConfig
  pub load_provisions : Text → Text → Text → Exec W (List Provision)
  pub load_template_path : Text → Text → Exec W Text
  pub save_zone_dynamic : Text → ZoneDynamicConfig → Text → Exec W (Unit {0})
  pub save_template_path : Text → Text → Text → Exec W (Unit {0})
  pub save_manager_dynamic : Text → ZonesManagerDynamicConfig → Text → Exec W (Unit {0})
  pub absolute_path : Text → Text → Text
  pub regex_replace : Text → Text → Text → Text
  pub activate_vt : ℤ → W → Bool × W
  pub netdev : ℤ → NetdevCall → Exec W (Unit {0})
  pub netdev_attrs : ℤ → Text → Exec W (List (Text × Text))
  pub netdev_list : ℤ → Exec W (List Text)
  pub create_file_in_zone : Text → Text → ℤ → ℤ → W → (Bool × ℤ) × W
  pub proxy_call_async : Text → Text → Text → Text → Exec W (Unit {0})
  pub launcher_path : Text
  pub path_exists : Text → W → Bool
  pub launch_as_root : List Text → W → Bool × W
  pub create_enabled_file : Text → Exec W (Unit {0})
  pub remove_enabled_file : Text → Exec W (Unit {0})
  pub list_directory : Text → Exec W (List Text)
  pub remove_all : Text → Text → Exec W (Unit {0})
  pub rename : Text → Text → Text → Exec W (Unit {0})

-- server/dynamic-config-scheme.hpp
abbrev pub vasum_db_prefix : Text
vasum_db_prefix = lit "vasum"

pub zone_db_prefix : Text → Text
zone_db_prefix id = lit "zone." ++ id
