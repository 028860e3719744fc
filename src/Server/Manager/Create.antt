-- ===== src/Server/Manager/Create.antt =====
-- Creating and destroying zones (server/zones-manager.cpp).
pub mod Keeps
pub mod Replies
pub mod Results
pub mod Refusals
pub mod Defaults
mod Examples
use vasum.Prelude.{
  ℕ, ◌+◌, Bool, true, false, ◌&&◌, ◌||◌, List, [], ◌∷◌, ◌++◌, Text, lit, ◌==◌, Option, none, some,
  is_some, is_empty, not, nat_eq, length, remove_if, erase_first, if◌then◌else◌,
}
use vasum.Prelude.Int.{ℤ, pos, leb_ℤ, ◌+ℤ◌, unsigned_int}
use vasum.Prelude.Decimal.{to_string}
use vasum.Prelude.Exec.{
  Exception, invalid_zone_id, zone_operation, is_runtime_error, is_exception, Outcome, Exec, pure,
  throw, gets, of_outcome, modify, when, catch, ◌>>=◌, ◌>>◌, on_world,
}
use vasum.Lxc.{c_call}
use vasum.Server.Host.{Host, ZoneDynamicConfig, vasum_db_prefix, zone_db_prefix}
use vasum.Server.Zone.Creation
use vasum.Server.Zone.{Zone}
use vasum.Server.Zone
use vasum.Server.Manager.{Manager, Method, find_zone, on_zone, self, host_id, enabled_file_name}
use vasum.Server.Manager.Names.{is_alnum, is_prohibited}
use vasum.Server.Manager.VirtualTerminals.{get_vt_for_new_zone}
use vasum.Server.Manager.Focus.{refocus}

abbrev zone_ip_base_third_octet : ℕ
zone_ip_base_third_octet = 100

-- std::to_string(ZONE_IP_BASE_THIRD_OCTET + freeVT), a sum of unsigned integers
third_octet : ℤ → Text
third_octet vt = to_string (pos (unsigned_int (pos zone_ip_base_third_octet +ℤ vt)))

module _ {W : Type 0} (h : Host W) where
  -- The dynamic configuration with the terminal, and the third octet of the addresses.
  pub with_vt : ZoneDynamicConfig → ℤ → ZoneDynamicConfig
  with_vt d vt =
      if not (is_empty d.ipv4_gateway) && not (is_empty d.ipv4)
      then record d {
        vt = vt;
        ipv4_gateway = h.regex_replace d.ipv4_gateway (lit "~IP~") (third_octet vt);
        ipv4 = h.regex_replace d.ipv4 (lit "~IP~") (third_octet vt);
      }
      else record d { vt = vt }

  pub save_dynamic_config : Method W (Unit {0})
  save_dynamic_config = do
    s ← self
    on_world (h.save_manager_dynamic s.config.db_path s.dynamic vasum_db_prefix)

  abbrev set_default_id : Text → Method W (Unit {0})
  set_default_id id =
      modify (λ s. (record s.0 { dynamic = record s.0.dynamic { default_id = id } }, s.1))

  pub set_records : (List Text → List Text) → Method W (Unit {0})
  set_records f = modify (λ t.
      (record t.0 { dynamic = record t.0.dynamic { zone_ids = f t.0.dynamic.zone_ids } }, t.1))

  abbrev first_id : List Zone → Text
  first_id [] = []
  first_id (z ∷ zs) = z.id

  unfoldable pub update_default_id : Method W (Unit {0})
  unfolding save_dynamic_config
  update_default_id = do
    s ← self
    when
        (not (
          (nat_eq (length s.zones) 0 && is_empty s.dynamic.default_id)
          || is_some (find_zone s.dynamic.default_id s.zones)))
        do set_default_id (first_id s.zones); save_dynamic_config

  unfoldable pub insert_zone : Text → Text → Method W (Unit {0})
  insert_zone id template_path = do
    s ← self
    when (id == host_id) (throw invalid_zone_id)
    when (is_some (find_zone id s.zones)) (throw invalid_zone_id)
    z ← on_world (
        Creation.new_zone h id s.config.zones_path template_path s.config.db_path
          s.config.zone_template_dir s.config.run_mount_point_prefix)
    modify (λ t. (record t.0 { zones = t.0.zones ++ z ∷ [] }, t.1))
    when (nat_eq (length (s.zones ++ z ∷ [])) 1) (
        on_world (
          h.create_enabled_file
            (h.lxc.create_file_path (s.config.zones_path ∷ enabled_file_name ∷ []))))

  -- A configuration that asks for a terminal gets a free one.
  pub assign_vt : ZoneDynamicConfig → Method W ZoneDynamicConfig
  unfolding with_vt
  assign_vt d = do
    s ← self
    if not (leb_ℤ (pos 0) d.vt) then pure d else do
      vt ← of_outcome (get_vt_for_new_zone s.config.available_vts s.zones)
      pure (with_vt d vt)

  pub generate_new_config : Text → Text → Method W (Unit {0})
  unfolding assign_vt
  generate_new_config id template_path = do
    s ← self
    loaded ← on_world (h.load_zone_dynamic s.config.db_path template_path (zone_db_prefix id))
    let named = record loaded {
      run_mount_point = h.regex_replace loaded.run_mount_point (lit "~NAME~") id;
    }
    final ← assign_vt named
    on_world (h.save_zone_dynamic s.config.db_path final (zone_db_prefix id))
    on_world (h.save_template_path s.config.db_path template_path (zone_db_prefix id))

  -- try { m } catch (std::runtime_error&) { remove the zone's files; throw; }
  abbrev or_remove_files : Text → Method W (Unit {0}) → Method W (Unit {0})
  or_remove_files zone_path m = catch is_runtime_error m λ e. do
    on_world (c_call (h.launch_as_root (h.launcher_path ∷ lit "removeall" ∷ zone_path ∷ [])))
    throw e

  pub copy_image : Text → Text → Method W (Unit {0})
  copy_image image zone_path = when (not (is_empty image)) do
    copied ←
        on_world
          (c_call (h.launch_as_root (h.launcher_path ∷ lit "copyimage" ∷ image ∷ zone_path ∷ [])))
    when (not copied) (throw zone_operation)

  -- What createZone does once the name is accepted and free.
  pub build_zone : Text → Text → Method W (Unit {0})
  unfolding copy_image
  build_zone id template_name = do
    s ← self
    let zone_path = h.lxc.create_file_path (s.config.zones_path ∷ id ∷ lit "/" ∷ [])
    copy_image s.config.zone_image_path zone_path
    let template_path =
        h.lxc.create_file_path (s.config.zone_template_dir ∷ (template_name ++ lit ".conf") ∷ [])
    or_remove_files zone_path (generate_new_config id template_path)
    or_remove_files zone_path (insert_zone id template_path)

  pub create_zone : Text → Text → Method W (Unit {0})
  unfolding build_zone set_records
  create_zone id template_name = do
    when (is_empty id || not (is_alnum id)) (throw invalid_zone_id)
    when (is_prohibited id) (throw invalid_zone_id)
    s ← self
    when (is_some (find_zone id s.zones)) (throw invalid_zone_id)
    taken ← on_world (gets (h.path_exists (h.provisions.join_path s.config.zones_path id)))
    when taken (throw invalid_zone_id)
    build_zone id template_name
    set_records (λ records. records ++ id ∷ [])
    save_dynamic_config
    update_default_id

  drop_zone : Text → Method W (Unit {0})
  drop_zone id = modify (λ s. (record s.0 { zones = erase_first (λ z. z.id == id) s.0.zones }, s.1))

  -- mZones.erase: the zone's destructor runs, and the zone is gone.
  erase_zone : Text → Method W (Unit {0})
  unfolding drop_zone
  erase_zone id = do on_zone id (Creation.delete_zone h); drop_zone id

  pub destroy_zone : Text → Method W (Unit {0})
  unfolding erase_zone set_records
  destroy_zone id = do
    s ← self
    when (not (is_some (find_zone id s.zones))) (throw invalid_zone_id)
    on_zone id (Zone.set_destroy_on_exit h)
    erase_zone id
    t ← self
    when (nat_eq (length t.zones) 0) (
        catch is_exception
          (on_world (
            h.remove_enabled_file
              (h.lxc.create_file_path (t.config.zones_path ∷ enabled_file_name ∷ []))))
          (λ _. pure tt))
    set_records (λ records. remove_if (λ i. i == id) records)
    save_dynamic_config
    update_default_id
    refocus h
