-- ===== src/Server/Manager/Handlers/PartsOnce.antt =====
-- The handlers about a zone's network devices, declarations, files and devices (server/zones-manager.cpp): each sets one
-- result where it returns.
use vasum.Prelude.{ℕ, true, false, Bool, List, Text}
use vasum.Prelude.Int.{ℤ}
use vasum.Prelude.Exec.{Exception, Exec, throw, invalid_zone_id}
use vasum.Prelude.Keeps.{Keeps-bind, Keeps-throw}
use vasum.Server.Host.{Host}
use vasum.Server.Zone.{Zone}
use vasum.Server.Manager.{Reply, find_zone, on_zone, self}
use vasum.Server.Manager.Replies.{Quiet, Quiet-self, Quiet-on_zone, Answers, answers_rules}
use vasum.Server.Manager.Queue.Replies.{Answers-try_add_task}
use vasum.Server.Manager.Handlers.Once.{Quiet-found, Answers-with_zone}
use vasum.Server.Manager.Handlers.Parts.{
  get_zone, answer, handle_netdev_call, handle_set_netdev_attrs_call, handle_get_netdev_attrs_call,
  handle_get_netdev_list_call, handle_create_netdev_veth_call, handle_create_netdev_macvlan_call,
  handle_create_netdev_phys_call, handle_destroy_netdev_call, handle_delete_netdev_ip_address_call,
  handle_declare_file_call, handle_declare_mount_call, handle_declare_link_call,
  handle_get_declarations_call, handle_remove_declaration_call, handle_create_file_call,
}
use vasum.Server.Manager.Handlers.Devices.{
  is_up, access_device, handle_grant_device_call, handle_revoke_device_call,
}

module _ {W : Type 0} where
  Quiet-get_zone : {A : Type 0} (id : Text) (m : Exec (Zone × W) A) → Quiet (get_zone id m)
  unfolding get_zone
  Quiet-get_zone id m replies = Keeps-bind self _ (Quiet-self replies) (λ s.
      Quiet-found (find_zone id s.zones) (throw invalid_zone_id) (λ z. on_zone id m)
        (λ rs. Keeps-throw invalid_zone_id) (λ z. Quiet-on_zone id m) replies)

module _ {W : Type 0} (h : Host W) (caller : Text) where
  Answers-answer :
      {A : Type 0} (p : Exception → Bool) (id : Text) (m : Exec (Zone × W) A) (result : A → Reply)
      → Answers (answer h caller p id m result)
  unfolding answer
  Answers-answer p id m result =
      search (answers_rules, Answers-try_add_task, Quiet-get_zone) depth 16

  pub Answers-set_netdev_attrs :
      (id dev : Text) (attrs : List (Text × Text))
      → Answers (handle_set_netdev_attrs_call h caller id dev attrs)
  unfolding handle_set_netdev_attrs_call handle_netdev_call
  Answers-set_netdev_attrs id dev attrs = Answers-answer _ id _ _

  pub Answers-create_netdev_veth :
      (id zone_dev host_dev : Text)
      → Answers (handle_create_netdev_veth_call h caller id zone_dev host_dev)
  unfolding handle_create_netdev_veth_call handle_netdev_call
  Answers-create_netdev_veth id zone_dev host_dev = Answers-answer _ id _ _

  pub Answers-create_netdev_macvlan :
      (id zone_dev host_dev : Text) (mode : ℕ)
      → Answers (handle_create_netdev_macvlan_call h caller id zone_dev host_dev mode)
  unfolding handle_create_netdev_macvlan_call handle_netdev_call
  Answers-create_netdev_macvlan id zone_dev host_dev mode = Answers-answer _ id _ _

  pub Answers-create_netdev_phys :
      (id dev : Text) → Answers (handle_create_netdev_phys_call h caller id dev)
  unfolding handle_create_netdev_phys_call handle_netdev_call
  Answers-create_netdev_phys id dev = Answers-answer _ id _ _

  pub Answers-destroy_netdev :
      (id dev : Text) → Answers (handle_destroy_netdev_call h caller id dev)
  unfolding handle_destroy_netdev_call handle_netdev_call
  Answers-destroy_netdev id dev = Answers-answer _ id _ _

  pub Answers-delete_netdev_ip_address :
      (id dev ip : Text) → Answers (handle_delete_netdev_ip_address_call h caller id dev ip)
  unfolding handle_delete_netdev_ip_address_call handle_netdev_call
  Answers-delete_netdev_ip_address id dev ip = Answers-answer _ id _ _

  pub Answers-get_netdev_attrs :
      (id dev : Text) → Answers (handle_get_netdev_attrs_call h caller id dev)
  unfolding handle_get_netdev_attrs_call
  Answers-get_netdev_attrs id dev = Answers-answer _ id _ _

  pub Answers-get_netdev_list : (id : Text) → Answers (handle_get_netdev_list_call h caller id)
  unfolding handle_get_netdev_list_call
  Answers-get_netdev_list id = Answers-answer _ id _ _

  pub Answers-declare_file :
      (id : Text) (type : ℤ) (path : Text) (flags mode : ℤ)
      → Answers (handle_declare_file_call h caller id type path flags mode)
  unfolding handle_declare_file_call
  Answers-declare_file id type path flags mode = Answers-answer _ id _ _

  pub Answers-declare_mount :
      (id source target type : Text) (flags : ℤ) (options : Text)
      → Answers (handle_declare_mount_call h caller id source target type flags options)
  unfolding handle_declare_mount_call
  Answers-declare_mount id source target type flags options = Answers-answer _ id _ _

  pub Answers-declare_link :
      (id source target : Text) → Answers (handle_declare_link_call h caller id source target)
  unfolding handle_declare_link_call
  Answers-declare_link id source target = Answers-answer _ id _ _

  pub Answers-get_declarations : (id : Text) → Answers (handle_get_declarations_call h caller id)
  unfolding handle_get_declarations_call
  Answers-get_declarations id = Answers-answer _ id _ _

  pub Answers-remove_declaration :
      (id item : Text) → Answers (handle_remove_declaration_call h caller id item)
  unfolding handle_remove_declaration_call
  Answers-remove_declaration id item = Answers-answer _ id _ _

  pub Answers-create_file :
      (id path : Text) (flags mode : ℤ)
      → Answers (handle_create_file_call h caller id path flags mode)
  unfolding handle_create_file_call
  Answers-create_file id path flags mode =
      search (answers_rules, Answers-try_add_task, Answers-with_zone) depth 16

  Answers-access_device :
      (grant : Bool) (id device : Text) (flags : ℕ)
      → Answers (access_device h caller grant id device flags)
  unfolding access_device is_up
  Answers-access_device grant id device flags = search (answers_rules, Answers-with_zone) depth 24

  pub Answers-grant_device :
      (id device : Text) (flags : ℕ) → Answers (handle_grant_device_call h caller id device flags)
  unfolding handle_grant_device_call
  Answers-grant_device id device flags =
      Answers-try_add_task caller _ (Answers-access_device true id device flags)

  pub Answers-revoke_device :
      (id device : Text) → Answers (handle_revoke_device_call h caller id device)
  unfolding handle_revoke_device_call
  Answers-revoke_device id device =
      Answers-try_add_task caller _ (Answers-access_device false id device 0)
