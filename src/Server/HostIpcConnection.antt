-- ===== src/Server/HostIpcConnection.antt =====
-- The methods that the host's socket offers to clients, each bound to a handler of the manager
-- (server/host-ipc-connection.cpp, server/host-ipc-connection.hpp). Reading a request from the socket is the IPC library's.
pub mod Actions
pub mod Keeps
pub mod Invariant
pub mod Exclusion
pub mod Answers
mod Examples
use vasum.Prelude.{ℕ, List, [], Text}
use vasum.Prelude.Int.{ℤ}
use vasum.Prelude.Exec.{Outcome, ok, raised, crashed}
use vasum.Server.Host.{Host}
use vasum.Server.Manager.{Manager, Method}
use vasum.Server.Manager.Queue.{
  handle_lock_queue_call, handle_unlock_queue_call, disconnected_callback,
}
use vasum.Server.Manager.Handlers
use vasum.Server.Manager.Handlers.Parts
use vasum.Server.Manager.Handlers.Devices

-- The calls of a client, but for those of the queue, with the fields of their messages.
pub data ZoneCall : Type 0 where
  get_zone_ids get_active_zone_id switch_to_default clean_up_zones_root : ZoneCall
  get_zone_info get_netdev_list get_declarations set_active_zone : Text → ZoneCall
  destroy_zone shutdown_zone start_zone lock_zone unlock_zone : Text → ZoneCall
  set_netdev_attrs : (id dev : Text) → List (Text × Text) → ZoneCall
  get_netdev_attrs : (id dev : Text) → ZoneCall
  create_netdev_veth : (id zone_dev host_dev : Text) → ZoneCall
  create_netdev_macvlan : (id zone_dev host_dev : Text) (mode : ℕ) → ZoneCall
  create_netdev_phys destroy_netdev : (id dev : Text) → ZoneCall
  delete_netdev_ip_address : (id dev ip : Text) → ZoneCall
  declare_file : (id : Text) (type : ℤ) (path : Text) (flags mode : ℤ) → ZoneCall
  declare_mount : (id source target type : Text) (flags : ℤ) (options : Text) → ZoneCall
  declare_link : (id source target : Text) → ZoneCall
  remove_declaration : (id declaration : Text) → ZoneCall
  create_zone : (id template_name : Text) → ZoneCall
  grant_device : (id device : Text) (flags : ℕ) → ZoneCall
  revoke_device : (id device : Text) → ZoneCall
  create_file : (id path : Text) (flags mode : ℤ) → ZoneCall

-- What a connection brings: a call, or its end.
pub data Event : Type 0 where
  call : ZoneCall → Event
  lock_queue unlock_queue disconnect : Event

module _ {W : Type 0} (h : Host W) where
  unfoldable pub serve : Text → ZoneCall → Method W (Unit {0})
  serve caller get_zone_ids = Handlers.handle_get_zone_ids_call h caller
  serve caller get_active_zone_id = Handlers.handle_get_active_zone_id_call h caller
  serve caller switch_to_default = Handlers.handle_switch_to_default_call h caller
  serve caller clean_up_zones_root = Handlers.handle_clean_up_zones_root_call h caller
  serve caller (get_zone_info id) = Handlers.handle_get_zone_info_call h caller id
  serve caller (get_netdev_list id) = Parts.handle_get_netdev_list_call h caller id
  serve caller (get_declarations id) = Parts.handle_get_declarations_call h caller id
  serve caller (set_active_zone id) = Handlers.handle_set_active_zone_call h caller id
  serve caller (destroy_zone id) = Handlers.handle_destroy_zone_call h caller id
  serve caller (shutdown_zone id) = Handlers.handle_shutdown_zone_call h caller id
  serve caller (start_zone id) = Handlers.handle_start_zone_call h caller id
  serve caller (lock_zone id) = Handlers.handle_lock_zone_call h caller id
  serve caller (unlock_zone id) = Handlers.handle_unlock_zone_call h caller id
  serve caller (set_netdev_attrs id dev attrs) =
      Parts.handle_set_netdev_attrs_call h caller id dev attrs
  serve caller (get_netdev_attrs id dev) = Parts.handle_get_netdev_attrs_call h caller id dev
  serve caller (create_netdev_veth id zone_dev host_dev) =
      Parts.handle_create_netdev_veth_call h caller id zone_dev host_dev
  serve caller (create_netdev_macvlan id zone_dev host_dev mode) =
      Parts.handle_create_netdev_macvlan_call h caller id zone_dev host_dev mode
  serve caller (create_netdev_phys id dev) = Parts.handle_create_netdev_phys_call h caller id dev
  serve caller (destroy_netdev id dev) = Parts.handle_destroy_netdev_call h caller id dev
  serve caller (delete_netdev_ip_address id dev ip) =
      Parts.handle_delete_netdev_ip_address_call h caller id dev ip
  serve caller (declare_file id type path flags mode) =
      Parts.handle_declare_file_call h caller id type path flags mode
  serve caller (declare_mount id source target type flags options) =
      Parts.handle_declare_mount_call h caller id source target type flags options
  serve caller (declare_link id source target) =
      Parts.handle_declare_link_call h caller id source target
  serve caller (remove_declaration id item) = Parts.handle_remove_declaration_call h caller id item
  serve caller (create_zone id template_name) =
      Handlers.handle_create_zone_call h caller id template_name
  serve caller (grant_device id device flags) =
      Devices.handle_grant_device_call h caller id device flags
  serve caller (revoke_device id device) = Devices.handle_revoke_device_call h caller id device
  serve caller (create_file id path flags mode) =
      Parts.handle_create_file_call h caller id path flags mode

  unfoldable pub handle : Text → Event → Method W (Unit {0})
  unfolding serve
  handle caller (call c) = serve caller c
  handle caller lock_queue = handle_lock_queue_call caller
  handle caller unlock_queue = handle_unlock_queue_call caller
  handle caller disconnect = disconnected_callback caller
