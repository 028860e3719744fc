-- ===== src/Server/Manager/Run.antt =====
-- Starting and stopping the manager, and its operations on all zones (server/zones-manager.cpp).
pub mod Keeps
pub mod Results
mod Examples
use vasum.Prelude.{
  Bool, true, false, ◌||◌, List, [], ◌∷◌, ◌++◌, Text, Option, none, some, not, if◌then◌else◌,
}
use vasum.Prelude.Exec.{
  invalid_zone_id, is_server_exception, Exec, pure, throw, gets, modify, when, catch, ◌>>=◌, ◌>>◌,
  on_world,
}
use vasum.Server.Host.{Host, zone_db_prefix}
use vasum.Server.Zone.{Zone}
use vasum.Server.Zone
use vasum.Server.Manager.{Manager, Method, find_zone, on_zone, for_each_zone, self}
use vasum.Server.Manager.Names.{clean_up_unknowns_from_root}
use vasum.Server.Manager.Focus.{refocus}
use vasum.Server.Manager.Create.{insert_zone, update_default_id}

module _ {W : Type 0} (h : Host W) where
  -- getTemplatePathForExistingZone
  template_path_of : Text → Method W Text
  template_path_of id = do
    s ← self
    on_world (h.load_template_path s.config.db_path (zone_db_prefix id))

  insert_all : List Text → Method W (Unit {0})
  unfolding template_path_of
  insert_all [] = pure tt
  insert_all (id ∷ ids) = do path ← template_path_of id; insert_zone h id path; insert_all ids

  pub set_is_running : Bool → Method W (Unit {0})
  set_is_running b = modify (λ t. (record t.0 { is_running = b }, t.1))

  pub start : Method W (Unit {0})
  unfolding insert_all set_is_running
  start = do
    set_is_running true
    s ← self
    on_world (
        clean_up_unknowns_from_root h s.config.zones_path s.dynamic.zone_ids
          (not s.config.clean_up_zones_path))
    insert_all s.dynamic.zone_ids
    update_default_id h

  pub restore_all : Method W (Unit {0})
  restore_all = do for_each_zone (λ _. Zone.restore h); refocus h

  pub shutdown_all : Method W (Unit {0})
  shutdown_all = do for_each_zone (λ _. Zone.stop h false); refocus h

  pub stop : Method W (Unit {0})
  unfolding set_is_running
  stop = do
    s ← self
    when s.is_running do
      when (not s.detach_on_exit) (catch is_server_exception (shutdown_all) (λ _. pure tt))
      set_is_running false

  -- getZone(id).is…()
  pub ask_zone : Text → Exec (Zone × W) Bool → Method W Bool
  ask_zone id m = do
    s ← self
    elim (find_zone id s.zones) [ none ↦ throw invalid_zone_id | some z ↦ on_zone id m ]

  pub is_paused : Text → Method W Bool
  unfolding ask_zone
  is_paused id = ask_zone id (Zone.is_paused h)

  pub is_running : Text → Method W Bool
  unfolding ask_zone
  is_running id = ask_zone id (Zone.is_running h)

  pub is_stopped : Text → Method W Bool
  unfolding ask_zone
  is_stopped id = ask_zone id (Zone.is_stopped h)

  set_detach_on_exit : Method W (Unit {0})
  set_detach_on_exit = modify (λ t. (record t.0 { detach_on_exit = true }, t.1))

  pub set_zones_detach_on_exit : Method W (Unit {0})
  unfolding set_detach_on_exit
  set_zones_detach_on_exit = do set_detach_on_exit; for_each_zone (λ _. Zone.set_detach_on_exit h)
