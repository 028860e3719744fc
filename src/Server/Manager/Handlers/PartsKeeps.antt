-- ===== src/Server/Manager/Handlers/PartsKeeps.antt =====
-- What the handlers of a zone's parts (server/zones-manager.cpp) do to the ids of the zones, to the recorded ids and to
-- the holder of the queue.
use vasum.Prelude.{Bool, ℕ, List, Text}
use vasum.Prelude.Int.{ℤ}
use vasum.Prelude.Exec.{Exec, Exception, throw, invalid_zone_id}
use vasum.Prelude.Keeps.{Keeps, Keeps-bind, Keeps-throw}
use vasum.Server.Host.{Host}
use vasum.Server.Zone.{Zone}
use vasum.Server.Zone.Lifecycle.{
  KeepsId, KeepsId-create_file, KeepsId-netdev_call, KeepsId-get_netdev_attrs,
  KeepsId-get_netdev_list, KeepsId-on_provision,
}
use vasum.Server.Manager.{Reply, find_zone, on_zone, self}
use vasum.Server.Manager.Shape.{Shape, shape_rules, Shape-self, Shape-on_zone}
use vasum.Server.Manager.Queue.Keeps.{Shape-try_add_task}
use vasum.Server.Manager.Handlers.Keeps.{Shape-found, Shape-with_zone}
use vasum.Server.Manager.Handlers.Parts.{
  get_zone, answer, handle_netdev_call, handle_set_netdev_attrs_call, handle_get_netdev_attrs_call,
  handle_get_netdev_list_call, handle_create_netdev_veth_call, handle_create_netdev_macvlan_call,
  handle_create_netdev_phys_call, handle_destroy_netdev_call, handle_delete_netdev_ip_address_call,
  handle_declare_file_call, handle_declare_mount_call, handle_declare_link_call,
  handle_get_declarations_call, handle_remove_declaration_call, handle_create_file_call,
}

module _ {W : Type 0} (h : Host W) (P : List Text → List Text → Text → Type 0) where
  pub Shape-get_zone :
      {A : Type 0} (id : Text) (m : Exec (Zone × W) A) → KeepsId m → Keeps (Shape P) (get_zone id m)
  unfolding get_zone
  Shape-get_zone id m k = Keeps-bind self _ (Shape-self P) (λ s.
      Shape-found h P (find_zone id s.zones) (throw invalid_zone_id) (λ z. on_zone id m)
        (Keeps-throw _) (λ z. Shape-on_zone P id m k))

  pub Shape-answer :
      {A : Type 0} (caller : Text) (p : Exception → Bool) (id : Text) (m : Exec (Zone × W) A)
      (result : A → Reply)
      → KeepsId m
      → Keeps (Shape P) (answer h caller p id m result)
  unfolding answer
  Shape-answer caller p id m result k =
      search (shape_rules, Shape-try_add_task, Shape-get_zone) depth 16

  pub Shape-set_netdev_attrs :
      (caller : Text) (id dev : Text) (attrs : List (Text × Text))
      → Keeps (Shape P) (handle_set_netdev_attrs_call h caller id dev attrs)
  unfolding handle_set_netdev_attrs_call handle_netdev_call
  Shape-set_netdev_attrs caller id dev attrs =
      Shape-answer caller _ id _ _ (KeepsId-netdev_call h _)

  pub Shape-create_netdev_veth :
      (caller : Text) (id zone_dev host_dev : Text)
      → Keeps (Shape P) (handle_create_netdev_veth_call h caller id zone_dev host_dev)
  unfolding handle_create_netdev_veth_call handle_netdev_call
  Shape-create_netdev_veth caller id zone_dev host_dev =
      Shape-answer caller _ id _ _ (KeepsId-netdev_call h _)

  pub Shape-create_netdev_macvlan :
      (caller : Text) (id zone_dev host_dev : Text) (mode : ℕ)
      → Keeps (Shape P) (handle_create_netdev_macvlan_call h caller id zone_dev host_dev mode)
  unfolding handle_create_netdev_macvlan_call handle_netdev_call
  Shape-create_netdev_macvlan caller id zone_dev host_dev mode =
      Shape-answer caller _ id _ _ (KeepsId-netdev_call h _)

  pub Shape-create_netdev_phys :
      (caller : Text) (id dev : Text)
      → Keeps (Shape P) (handle_create_netdev_phys_call h caller id dev)
  unfolding handle_create_netdev_phys_call handle_netdev_call
  Shape-create_netdev_phys caller id dev = Shape-answer caller _ id _ _ (KeepsId-netdev_call h _)

  pub Shape-destroy_netdev :
      (caller : Text) (id dev : Text) → Keeps (Shape P) (handle_destroy_netdev_call h caller id dev)
  unfolding handle_destroy_netdev_call handle_netdev_call
  Shape-destroy_netdev caller id dev = Shape-answer caller _ id _ _ (KeepsId-netdev_call h _)

  pub Shape-delete_netdev_ip_address :
      (caller : Text) (id dev ip : Text)
      → Keeps (Shape P) (handle_delete_netdev_ip_address_call h caller id dev ip)
  unfolding handle_delete_netdev_ip_address_call handle_netdev_call
  Shape-delete_netdev_ip_address caller id dev ip =
      Shape-answer caller _ id _ _ (KeepsId-netdev_call h _)

  pub Shape-get_netdev_attrs :
      (caller : Text) (id dev : Text)
      → Keeps (Shape P) (handle_get_netdev_attrs_call h caller id dev)
  unfolding handle_get_netdev_attrs_call
  Shape-get_netdev_attrs caller id dev =
      Shape-answer caller _ id _ _ (KeepsId-get_netdev_attrs h dev)

  pub Shape-get_netdev_list :
      (caller : Text) (id : Text) → Keeps (Shape P) (handle_get_netdev_list_call h caller id)
  unfolding handle_get_netdev_list_call
  Shape-get_netdev_list caller id = Shape-answer caller _ id _ _ (KeepsId-get_netdev_list h)

  pub Shape-declare_file :
      (caller : Text) (id : Text) (type : ℤ) (path : Text) (flags mode : ℤ)
      → Keeps (Shape P) (handle_declare_file_call h caller id type path flags mode)
  unfolding handle_declare_file_call
  Shape-declare_file caller id type path flags mode =
      Shape-answer caller _ id _ _ (KeepsId-on_provision h _)

  pub Shape-declare_mount :
      (caller : Text) (id source target type : Text) (flags : ℤ) (options : Text)
      → Keeps (Shape P) (handle_declare_mount_call h caller id source target type flags options)
  unfolding handle_declare_mount_call
  Shape-declare_mount caller id source target type flags options =
      Shape-answer caller _ id _ _ (KeepsId-on_provision h _)

  pub Shape-declare_link :
      (caller : Text) (id source target : Text)
      → Keeps (Shape P) (handle_declare_link_call h caller id source target)
  unfolding handle_declare_link_call
  Shape-declare_link caller id source target =
      Shape-answer caller _ id _ _ (KeepsId-on_provision h _)

  pub Shape-get_declarations :
      (caller : Text) (id : Text) → Keeps (Shape P) (handle_get_declarations_call h caller id)
  unfolding handle_get_declarations_call
  Shape-get_declarations caller id = Shape-answer caller _ id _ _ (KeepsId-on_provision h _)

  pub Shape-remove_declaration :
      (caller : Text) (id item : Text)
      → Keeps (Shape P) (handle_remove_declaration_call h caller id item)
  unfolding handle_remove_declaration_call
  Shape-remove_declaration caller id item = Shape-answer caller _ id _ _ (KeepsId-on_provision h _)

  pub Shape-create_file :
      (caller : Text) (id path : Text) (flags mode : ℤ)
      → Keeps (Shape P) (handle_create_file_call h caller id path flags mode)
  unfolding handle_create_file_call
  Shape-create_file caller id path flags mode =
      search (shape_rules, Shape-try_add_task, Shape-with_zone, KeepsId-create_file) depth 20
