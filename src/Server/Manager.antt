-- ===== src/Server/Manager.antt =====
-- The manager of the zones (server/zones-manager.cpp, server/zones-manager.hpp): its state, and the parts
-- that its operations are put together from. A method acts on the manager and the world. An iterator into the
-- list of zones is the zone's id, and `none` is the end; reading through the end crashes. The manager's lock makes
-- each operation one step.
pub mod Names
pub mod VirtualTerminals
pub mod Shape
pub mod Replies
pub mod Ids
pub mod Focus
pub mod Create
pub mod Run
pub mod Queue
mod Examples
pub mod Handlers
use vasum.Prelude.{
  ℕ, Bool, true, false, List, [], ◌∷◌, ◌++◌, Text, lit, ◌==◌, Option, none, some, find_if,
  if◌then◌else◌,
}
use vasum.Prelude.Int.{ℤ}
use vasum.Prelude.Exec.{Outcome, ok, raised, crashed, Exec, pure, crash, gets, modify, ◌>>=◌, ◌>>◌}
use vasum.Server.Host.{ZonesManagerDynamicConfig, Host}
use vasum.Server.ProxyPolicy.{ProxyCallRule}
use vasum.Server.Zone.{Zone}
use vasum.Server.Zone

pub record ZonesManagerConfig : Type 0 where
  pub db_path : Text
  pub zones_path : Text
  pub clean_up_zones_path : Bool
  pub zone_image_path : Text
  pub zone_template_dir : Text
  pub host_vt : ℤ
  pub available_vts : List ℤ
  pub input_enabled : Bool
  pub run_mount_point_prefix : Text
  pub proxy_call_rules : List ProxyCallRule

-- server/common-definitions.hpp
pub data ErrorName : Type 0 where
  forbidden invalid_id invalid_state internal zone_not_running create_file_failed queue : ErrorName

-- What a handler puts into the result of a call.
pub data Reply : Type 0 where
  void : Reply
  error : ErrorName → Reply
  zone_ids : List Text → Reply
  zone_id : Text → Reply
  zone_info : (state id : Text) (vt : ℤ) (root_path : Text) → Reply
  netdev_attrs : List (Text × Text) → Reply
  names : List Text → Reply
  declaration : Text → Reply
  descriptor : ℤ → Reply

-- `replies` are the results that were set, the latest first.
pub record Manager : Type 0 where
  pub is_running : Bool
  pub config : ZonesManagerConfig
  pub dynamic : ZonesManagerDynamicConfig
  pub zones : List Zone
  pub active_zone_id : Text
  pub detach_on_exit : Bool
  pub exclusive_id_lock : Text
  pub replies : List Reply

abbrev pub invalid_connection_id : Text
invalid_connection_id = lit "invalid://"

-- ZonesManager::ZonesManager, with the configurations that it loads.
abbrev pub new_manager : ZonesManagerConfig → ZonesManagerDynamicConfig → Manager
new_manager config dynamic = record {
  is_running = true;
  config = config;
  dynamic = dynamic;
  zones = [];
  active_zone_id = [];
  detach_on_exit = false;
  exclusive_id_lock = invalid_connection_id;
  replies = [];
}

abbrev pub host_id : Text
host_id = lit "host"

abbrev pub enabled_file_name : Text
enabled_file_name = lit "enabled"

-- ZonesManager::findZone
pub find_zone : Text → List Zone → Option Zone
find_zone id zones = find_if (λ z. z.id == id) zones

-- A call on the first zone of the id, with the zone written back.
unfoldable pub at_zone : {W A : Type 0} → Exec (Zone × W) A → Text → Exec (List Zone × W) A
at_zone m id ([], w) = (crashed, ([], w))
at_zone m id (z ∷ zs, w) =
    let here = m (z, w) in
    let there = at_zone m id (zs, w) in
    if z.id == id
    then (here.0, (here.1.0 ∷ zs, here.1.1))
    else (there.0, (z ∷ there.1.0, there.1.1))

-- The rest of the loop, after the call on one zone.
abbrev pub next_zone :
    {W : Type 0}
    → (W → Outcome (Unit {0}) × (List Zone × W))
    → Zone
    → List Zone
    → Outcome (Unit {0})
    → W
    → Outcome (Unit {0}) × (List Zone × W)
next_zone rest z zs (ok u) w = let r = rest w in (r.0, (z ∷ r.1.0, r.1.1))
next_zone rest z zs (raised e) w = (raised e, (z ∷ zs, w))
next_zone rest z zs crashed w = (crashed, (z ∷ zs, w))

-- A call on every zone in order, up to the first exception.
unfoldable pub each_zone :
    {W : Type 0} → (Zone → Exec (Zone × W) (Unit {0})) → Exec (List Zone × W) (Unit {0})
each_zone m ([], w) = (ok tt, ([], w))
each_zone m (z ∷ zs, w) =
    let here = m z (z, w) in next_zone (λ v. each_zone m (zs, v)) here.1.0 zs here.0 here.1.1

abbrev pub Method : Type 0 → Type 0 → Type 0
Method W A = Exec (Manager × W) A

module _ {W : Type 0} where
  -- A call on the list of zones.
  unfoldable pub on_zones : {A : Type 0} → Exec (List Zone × W) A → Method W A
  on_zones m (s, w) = let (r, (zs, w')) = m (s.zones, w) in (r, (record s { zones = zs }, w'))

  unfoldable pub on_zone : {A : Type 0} → Text → Exec (Zone × W) A → Method W A
  on_zone id m = on_zones (at_zone m id)

  unfoldable pub for_each_zone : (Zone → Exec (Zone × W) (Unit {0})) → Method W (Unit {0})
  for_each_zone m = on_zones (each_zone m)

  -- result->set…
  unfoldable pub reply : Reply → Method W (Unit {0})
  reply r = modify (λ s. (record s.0 { replies = r ∷ s.0.replies }, s.1))

  unfoldable pub set_active_zone_id : Text → Method W (Unit {0})
  set_active_zone_id id = modify (λ s. (record s.0 { active_zone_id = id }, s.1))

  unfoldable pub self : Method W Manager
  self = gets (λ s. s.0)

-- A question to a zone that leaves it as it is.
unfoldable pub ask : {W A : Type 0} → Zone → Exec (Zone × W) A → Exec W A
ask z m w = let (r, (z', w')) = m (z, w) in (r, w')
