-- ===== src/Server/Zone/Creation.antt =====
-- The constructor and the destructor of a zone (server/zone.cpp).
use vasum.Prelude.{false, ◌&&◌, List, [], ◌∷◌, ◌++◌, Text, lit, is_empty, not, if◌then◌else◌}
use vasum.Prelude.Int.{pos, ltb_ℤ}
use vasum.Prelude.Decimal.{to_string}
use vasum.Prelude.Exec.{zone_operation, lxc, Exec, pure, throw, gets, when, ◌>>=◌, ◌>>◌}
use vasum.Lxc.{c_call, lxc_create}
use vasum.Server.Host.{ZoneDynamicConfig, Host, zone_db_prefix}
use vasum.Server.Provision
use vasum.Server.Provision.{ZoneProvision}
use vasum.Server.Zone.{Zone, on_container, on_provision}

-- The arguments that the template script gets.
template_args : ZoneDynamicConfig → List Text
template_args d =
    (if is_empty d.ipv4_gateway then [] else lit "--ipv4-gateway" ∷ d.ipv4_gateway ∷ [])
    ++ ((if is_empty d.ipv4 then [] else lit "--ipv4" ∷ d.ipv4 ∷ [])
        ++ (if ltb_ℤ (pos 0) d.vt then lit "--vt" ∷ to_string d.vt ∷ [] else []))

module _ {W : Type 0} (h : Host W) where
  -- Zone::Zone
  unfoldable pub new_zone : Text → Text → Text → Text → Text → Text → Exec W Zone
  unfolding template_args
  new_zone id zones_path template_path db_path template_dir base_run_mount_point = do
    opened ← c_call (h.lxc.container_new zones_path id)
    when (not opened) (throw lxc)
    config ← h.load_zone_config db_path template_path (zone_db_prefix id)
    dynamic ← h.load_zone_dynamic db_path template_path (zone_db_prefix id)
    defined ← gets (h.lxc.is_defined id)
    when (not defined) do
      created ←
          lxc_create h.lxc id zones_path (h.absolute_path config.zone_template template_dir)
            (template_args dynamic)
      when (not created) (throw zone_operation)
    let root = h.provisions.join_path (h.provisions.join_path zones_path id) (lit "rootfs")
    provisions ← h.load_provisions db_path template_path (zone_db_prefix id)
    pure (record {
      id = id;
      zones_path = zones_path;
      db_path = db_path;
      config = config;
      dynamic = dynamic;
      run_mount_point =
          if is_empty dynamic.run_mount_point
          then []
          else h.absolute_path dynamic.run_mount_point base_run_mount_point;
      root_path = root;
      detach_on_exit = false;
      destroy_on_exit = false;
      provision = record {
        provisions = provisions;
        root_path = root;
        db_path = db_path;
        db_prefix = zone_db_prefix id;
        valid_link_prefixes = config.valid_link_prefixes;
        provisioned = [];
      };
    })

  abbrev Method : Type 0 → Type 0
  Method A = Exec (Zone × W) A

  -- A forced stop whose failure is only logged.
  unfoldable pub try_stop : Method (Unit {0})
  try_stop = on_container h (λ id. c_call (h.lxc.stop id)) >> pure tt

  -- Zone::~Zone, and the destructor of the provisions after it.
  unfoldable pub delete_zone : Method (Unit {0})
  unfolding try_stop
  delete_zone = do
    z ← gets (λ s. s.0)
    when z.destroy_on_exit do try_stop; on_container h (λ id. c_call (h.lxc.destroy id)); pure tt
    when (not z.detach_on_exit && not z.destroy_on_exit) try_stop
    on_provision h (Provision.stop h.provisions)
