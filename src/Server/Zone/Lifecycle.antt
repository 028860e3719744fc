-- ===== src/Server/Zone/Lifecycle.antt =====
-- What the methods of server/zone.cpp leave as it is: the zone's id.
use vasum.Prelude.{◌≡◌, Bool, Text}
use vasum.Prelude.Int.{ℤ}
use vasum.Prelude.Exec.{Exec, on_world, on_part}
use vasum.Prelude.Returns.{Returns, Returns-bind, Returns-pure}
use vasum.Prelude.Keeps.{Keeps, Keeps-modify, keeps_rules}
use vasum.Server.Host.{Host, NetdevCall}
use vasum.Server.Provision.{ZoneProvision}
use vasum.Server.Zone.{
  Zone, SchedulerLevel, on_provision, on_container, update_requested_state, is_running, is_stopped,
  is_paused, set_scheduler_params, set_scheduler_level, go_foreground, go_background, start,
  shut_down, stop, suspend, resume, restore, activate_vt, set_detach_on_exit, set_destroy_on_exit,
}
use vasum.Server.Zone.Creation.{try_stop, delete_zone, new_zone}
use vasum.Server.Zone.Network.{create_file, netdev_call, get_netdev_attrs, get_netdev_list}

-- The zone on which a method acts has this id.
abbrev pub HasId : {W : Type 0} → Text → Zone × W → Type 0
HasId id s = s.0.id ≡ id

-- The method leaves the id of the zone as it is.
abbrev pub KeepsId : {W A : Type 0} → Exec (Zone × W) A → Type 0
KeepsId {W} m = (id : Text) → Keeps (HasId {W = W} id) m

module _ {W : Type 0} (h : Host W) where
  pub KeepsId-on_provision :
      {A : Type 0} (m : Exec (ZoneProvision × W) A) → KeepsId (on_provision h m)
  unfolding on_provision on_part
  KeepsId-on_provision m id = record { after = λ s e. e }

  pub KeepsId-on_container : {A : Type 0} (m : Text → Exec W A) → KeepsId (on_container h m)
  unfolding on_container on_world
  KeepsId-on_container m id = record { after = λ s e. e }

  pub KeepsId-on_world : {A : Type 0} (m : Exec W A) → KeepsId (on_world m)
  unfolding on_world
  KeepsId-on_world m id = record { after = λ s e. e }

  pub ruleset id_rules =
      (keeps_rules, Keeps-modify, KeepsId-on_provision, KeepsId-on_container, KeepsId-on_world)

  pub KeepsId-update_requested_state : (state : Text) → KeepsId (update_requested_state h state)
  unfolding update_requested_state
  KeepsId-update_requested_state state id = search id_rules depth 16

  pub KeepsId-is_running : KeepsId (is_running h)
  unfolding is_running
  KeepsId-is_running id = search id_rules depth 16

  pub KeepsId-is_stopped : KeepsId (is_stopped h)
  unfolding is_stopped
  KeepsId-is_stopped id = search id_rules depth 16

  pub KeepsId-is_paused : KeepsId (is_paused h)
  unfolding is_paused
  KeepsId-is_paused id = search id_rules depth 16

  pub KeepsId-set_scheduler_level : (level : SchedulerLevel) → KeepsId (set_scheduler_level h level)
  unfolding set_scheduler_level set_scheduler_params
  KeepsId-set_scheduler_level level id = search (id_rules, KeepsId-is_running) depth 16

  pub KeepsId-go_foreground : KeepsId (go_foreground h)
  unfolding go_foreground
  KeepsId-go_foreground = KeepsId-set_scheduler_level SchedulerLevel.foreground

  pub KeepsId-go_background : KeepsId (go_background h)
  unfolding go_background
  KeepsId-go_background = KeepsId-set_scheduler_level SchedulerLevel.background

  ruleset part_rules = (
    id_rules, KeepsId-update_requested_state, KeepsId-is_running, KeepsId-is_stopped,
    KeepsId-go_foreground,
  )

  pub KeepsId-start : KeepsId (start h)
  unfolding start
  KeepsId-start id = search part_rules depth 16

  pub KeepsId-stop : (save_state : Bool) → KeepsId (stop h save_state)
  unfolding stop shut_down
  KeepsId-stop save_state id = search part_rules depth 16

  pub KeepsId-suspend : KeepsId (suspend h)
  unfolding suspend
  KeepsId-suspend id = search part_rules depth 16

  pub KeepsId-resume : KeepsId (resume h)
  unfolding resume
  KeepsId-resume id = search part_rules depth 16

  pub KeepsId-restore : KeepsId (restore h)
  unfolding restore
  KeepsId-restore id = search (part_rules, KeepsId-start, KeepsId-suspend) depth 16

  pub KeepsId-activate_vt : KeepsId (activate_vt h)
  unfolding activate_vt
  KeepsId-activate_vt id = search part_rules depth 16

  pub KeepsId-set_detach_on_exit : KeepsId (set_detach_on_exit h)
  unfolding set_detach_on_exit
  KeepsId-set_detach_on_exit id = search part_rules depth 16

  pub KeepsId-set_destroy_on_exit : KeepsId (set_destroy_on_exit h)
  unfolding set_destroy_on_exit
  KeepsId-set_destroy_on_exit id = search part_rules depth 16

  pub KeepsId-delete_zone : KeepsId (delete_zone h)
  unfolding delete_zone try_stop
  KeepsId-delete_zone id = search part_rules depth 16

  pub KeepsId-create_file : (path : Text) (flags mode : ℤ) → KeepsId (create_file h path flags mode)
  unfolding create_file
  KeepsId-create_file path flags mode id = search part_rules depth 16

  pub KeepsId-netdev_call : (call : NetdevCall) → KeepsId (netdev_call h call)
  unfolding netdev_call
  KeepsId-netdev_call call id = search part_rules depth 16

  pub KeepsId-get_netdev_attrs : (dev : Text) → KeepsId (get_netdev_attrs h dev)
  unfolding get_netdev_attrs
  KeepsId-get_netdev_attrs dev id = search part_rules depth 16

  pub KeepsId-get_netdev_list : KeepsId (get_netdev_list h)
  unfolding get_netdev_list
  KeepsId-get_netdev_list id = search part_rules depth 16

  -- A new zone has the id that it was asked for.
  pub Returns-new_zone :
      (id zones_path template db_path template_dir base : Text)
      → Returns (λ z. z.id ≡ id) (new_zone h id zones_path template db_path template_dir base)
  unfolding new_zone
  Returns-new_zone id zones_path template db_path template_dir base =
      search (Returns-bind, Returns-pure) depth 16
