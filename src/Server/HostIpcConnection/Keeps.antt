-- ===== src/Server/HostIpcConnection/Keeps.antt =====
-- What a call that is served (server/host-ipc-connection.cpp) does to the ids of the zones, to the recorded ids and to the
-- holder of the queue: by cases on the call, the lemma of its handler.
use vasum.Prelude.{List, Text}
use vasum.Prelude.Keeps.{Keeps}
use vasum.Server.Host.{Host}
use vasum.Server.Manager.Shape.{Shape}
use vasum.Server.Manager.Create.Keeps.{Closed}
use vasum.Server.Manager.Handlers.Keeps.{
  Shape-get_zone_ids, Shape-get_active_zone_id, Shape-get_zone_info, Shape-set_active_zone,
  Shape-switch_to_default, Shape-handle_create_zone, Shape-handle_destroy_zone, Shape-shutdown_zone,
  Shape-start_zone, Shape-lock_zone, Shape-unlock_zone, Shape-clean_up,
}
use vasum.Server.Manager.Handlers.PartsKeeps.{
  Shape-set_netdev_attrs, Shape-get_netdev_attrs, Shape-get_netdev_list, Shape-create_netdev_veth,
  Shape-create_netdev_macvlan, Shape-create_netdev_phys, Shape-destroy_netdev,
  Shape-delete_netdev_ip_address, Shape-declare_file, Shape-declare_mount, Shape-declare_link,
  Shape-get_declarations, Shape-remove_declaration, Shape-create_file,
}
use vasum.Server.Manager.Handlers.DevicesKeeps.{Shape-grant_device, Shape-revoke_device}
use vasum.Server.HostIpcConnection.{
  ZoneCall, get_zone_ids, get_active_zone_id, switch_to_default, clean_up_zones_root, get_zone_info,
  get_netdev_list, get_declarations, set_active_zone, destroy_zone, shutdown_zone, start_zone,
  lock_zone, unlock_zone, set_netdev_attrs, get_netdev_attrs, create_netdev_veth,
  create_netdev_macvlan, create_netdev_phys, destroy_netdev, delete_netdev_ip_address, declare_file,
  declare_mount, declare_link, remove_declaration, create_zone, grant_device, revoke_device,
  create_file, serve,
}

module _ {W : Type 0} (h : Host W) (P : List Text → List Text → Text → Type 0) (c : Closed P) where
  pub Shape-serve : (caller : Text) (z : ZoneCall) → Keeps (Shape P) (serve h caller z)
  unfolding serve
  Shape-serve caller get_zone_ids = Shape-get_zone_ids h P caller
  Shape-serve caller get_active_zone_id = Shape-get_active_zone_id h P caller
  Shape-serve caller switch_to_default = Shape-switch_to_default h P caller
  Shape-serve caller clean_up_zones_root = Shape-clean_up h P caller
  Shape-serve caller (get_zone_info id) = Shape-get_zone_info h P caller id
  Shape-serve caller (get_netdev_list id) = Shape-get_netdev_list h P caller id
  Shape-serve caller (get_declarations id) = Shape-get_declarations h P caller id
  Shape-serve caller (set_active_zone id) = Shape-set_active_zone h P caller id
  Shape-serve caller (shutdown_zone id) = Shape-shutdown_zone h P caller id
  Shape-serve caller (start_zone id) = Shape-start_zone h P caller id
  Shape-serve caller (lock_zone id) = Shape-lock_zone h P caller id
  Shape-serve caller (unlock_zone id) = Shape-unlock_zone h P caller id
  Shape-serve caller (destroy_zone id) = Shape-handle_destroy_zone h P c caller id
  Shape-serve caller (set_netdev_attrs id dev attrs) =
      Shape-set_netdev_attrs h P caller id dev attrs
  Shape-serve caller (get_netdev_attrs id dev) = Shape-get_netdev_attrs h P caller id dev
  Shape-serve caller (create_netdev_veth id zone_dev host_dev) =
      Shape-create_netdev_veth h P caller id zone_dev host_dev
  Shape-serve caller (create_netdev_macvlan id zone_dev host_dev mode) =
      Shape-create_netdev_macvlan h P caller id zone_dev host_dev mode
  Shape-serve caller (create_netdev_phys id dev) = Shape-create_netdev_phys h P caller id dev
  Shape-serve caller (destroy_netdev id dev) = Shape-destroy_netdev h P caller id dev
  Shape-serve caller (delete_netdev_ip_address id dev ip) =
      Shape-delete_netdev_ip_address h P caller id dev ip
  Shape-serve caller (declare_file id type path flags mode) =
      Shape-declare_file h P caller id type path flags mode
  Shape-serve caller (declare_mount id source target type flags options) =
      Shape-declare_mount h P caller id source target type flags options
  Shape-serve caller (declare_link id source target) =
      Shape-declare_link h P caller id source target
  Shape-serve caller (remove_declaration id item) = Shape-remove_declaration h P caller id item
  Shape-serve caller (create_zone id template) = Shape-handle_create_zone h P c caller id template
  Shape-serve caller (grant_device id device flags) = Shape-grant_device h P caller id device flags
  Shape-serve caller (revoke_device id device) = Shape-revoke_device h P caller id device
  Shape-serve caller (create_file id path flags mode) =
      Shape-create_file h P caller id path flags mode
