-- ===== src/Server/Manager/Handlers/Parts.antt =====
-- The calls of clients about a zone's network devices, declarations and files (server/zones-manager.cpp).
use vasum.Prelude.{ℕ, Bool, ◌||◌, List, Text, none, some}
use vasum.Prelude.Int.{ℤ}
use vasum.Prelude.Exec.{
  Exception, invalid_zone_id, is_runtime_error, is_invalid_zone_id, is_zone_operation, is_cargo,
  Exec, throw, catch, ◌>>=◌,
}
use vasum.Server.Host.{
  Host, NetdevCall, set_attrs, create_veth, create_macvlan, move_phys, destroy_netdev,
  delete_ip_address,
}
use vasum.Server.Provision
use vasum.Server.Zone.Network
use vasum.Server.Zone.{Zone}
use vasum.Server.Zone
use vasum.Server.Manager.{
  Method, create_file_failed, Reply, void, error, netdev_attrs, names, declaration, descriptor,
  find_zone, on_zone, reply, self,
}
use vasum.Server.Manager.Queue.{try_add_task}
use vasum.Server.Manager.Handlers.{error_of, with_zone}

module _ {W : Type 0} where
  -- getZone(id).…: an unknown zone throws.
  unfoldable pub get_zone : {A : Type 0} → Text → Exec (Zone × W) A → Method W A
  get_zone id m = do
    s ← self
    elim (find_zone id s.zones) [ none ↦ throw invalid_zone_id | some z ↦ on_zone id m ]

-- The exceptions that the declaring handlers catch.
abbrev pub is_declare_error : Exception → Bool
is_declare_error e = is_invalid_zone_id e || is_cargo e

module _ {W : Type 0} (h : Host W) (caller : Text) where
  -- A call of a zone whose result is the reply, with the exceptions that are caught.
  unfoldable pub answer :
      {A : Type 0}
      → (Exception → Bool)
      → Text
      → Exec (Zone × W) A
      → (A → Reply)
      → Method W (Unit {0})
  unfolding get_zone
  answer p id m result =
      try_add_task caller
        (catch p (do a ← get_zone id m; reply (result a)) (λ e. reply (error (error_of e))))

  unfoldable pub handle_netdev_call : Text → NetdevCall → Method W (Unit {0})
  unfolding answer
  handle_netdev_call id call = answer is_runtime_error id (Network.netdev_call h call) (λ _. void)

  unfoldable pub handle_set_netdev_attrs_call :
      Text → Text → List (Text × Text) → Method W (Unit {0})
  unfolding handle_netdev_call
  handle_set_netdev_attrs_call id dev attrs = handle_netdev_call id (set_attrs dev attrs)

  unfoldable pub handle_get_netdev_attrs_call : Text → Text → Method W (Unit {0})
  unfolding answer
  handle_get_netdev_attrs_call id dev =
      answer is_runtime_error id (Network.get_netdev_attrs h dev) netdev_attrs

  unfoldable pub handle_get_netdev_list_call : Text → Method W (Unit {0})
  unfolding answer
  handle_get_netdev_list_call id = answer is_runtime_error id (Network.get_netdev_list h) names

  unfoldable pub handle_create_netdev_veth_call : Text → Text → Text → Method W (Unit {0})
  unfolding handle_netdev_call
  handle_create_netdev_veth_call id zone_dev host_dev =
      handle_netdev_call id (create_veth zone_dev host_dev)

  unfoldable pub handle_create_netdev_macvlan_call : Text → Text → Text → ℕ → Method W (Unit {0})
  unfolding handle_netdev_call
  handle_create_netdev_macvlan_call id zone_dev host_dev mode =
      handle_netdev_call id (create_macvlan zone_dev host_dev mode)

  unfoldable pub handle_create_netdev_phys_call : Text → Text → Method W (Unit {0})
  unfolding handle_netdev_call
  handle_create_netdev_phys_call id dev = handle_netdev_call id (move_phys dev)

  unfoldable pub handle_destroy_netdev_call : Text → Text → Method W (Unit {0})
  unfolding handle_netdev_call
  handle_destroy_netdev_call id dev = handle_netdev_call id (destroy_netdev dev)

  unfoldable pub handle_delete_netdev_ip_address_call : Text → Text → Text → Method W (Unit {0})
  unfolding handle_netdev_call
  handle_delete_netdev_ip_address_call id dev ip = handle_netdev_call id (delete_ip_address dev ip)

  unfoldable pub handle_declare_file_call : Text → ℤ → Text → ℤ → ℤ → Method W (Unit {0})
  unfolding answer
  handle_declare_file_call id type path flags mode =
      answer is_declare_error id
        (Zone.on_provision h (Provision.declare_file h.provisions type path flags mode)) declaration

  unfoldable pub handle_declare_mount_call :
      Text → Text → Text → Text → ℤ → Text → Method W (Unit {0})
  unfolding answer
  handle_declare_mount_call id source target type flags options =
      answer is_declare_error id
        (Zone.on_provision h
          (Provision.declare_mount h.provisions source target type flags options))
        declaration

  unfoldable pub handle_declare_link_call : Text → Text → Text → Method W (Unit {0})
  unfolding answer
  handle_declare_link_call id source target =
      answer is_declare_error id
        (Zone.on_provision h (Provision.declare_link h.provisions source target)) declaration

  unfoldable pub handle_get_declarations_call : Text → Method W (Unit {0})
  unfolding answer
  handle_get_declarations_call id =
      answer is_runtime_error id (Zone.on_provision h (Provision.list_declarations h.provisions))
        names

  unfoldable pub handle_remove_declaration_call : Text → Text → Method W (Unit {0})
  unfolding answer
  handle_remove_declaration_call id item =
      answer is_runtime_error id (Zone.on_provision h (Provision.remove h.provisions item))
        (λ _. void)

  unfoldable pub handle_create_file_call : Text → Text → ℤ → ℤ → Method W (Unit {0})
  handle_create_file_call id path flags mode = try_add_task caller (
      with_zone id λ z.
        catch is_zone_operation
          (do fd ← on_zone id (Network.create_file h path flags mode); reply (descriptor fd))
          (λ e. reply (error create_file_failed)))
