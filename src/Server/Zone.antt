-- ===== src/Server/Zone.antt =====
-- One zone of the daemon (server/zone.cpp, server/zone.hpp): a container, its configuration and its
-- provisions. A method acts on the zone and the world. The lock of a zone is not modelled, since every call comes under
-- the manager's; sleeping is no step.
pub mod Creation
pub mod Network
pub mod RequestedState
pub mod Lifecycle
pub mod States
mod Examples
use vasum.Prelude.{
  ℕ, ◌+◌, ◌≤◌, Bool, true, false, ◌&&◌, ◌||◌, List, [], ◌∷◌, ◌++◌, Text, lit, ◌==◌, Option, none,
  some, is_empty, not, leb, if◌then◌else◌,
}
use vasum.Prelude.Int.{ℤ, pos, negsuc, ltb_ℤ, leb_ℤ, eq_ℤ}
use vasum.Prelude.Decimal.{to_string}
use vasum.Prelude.Exec.{
  Exception, zone_operation, utils, lxc, Outcome, ok, raised, crashed, Exec, pure, throw, crash,
  gets, modify, when, assert, catch, ◌>>=◌, ◌>>◌, on_world, on_part,
}
use vasum.Lxc.{
  State, stopped, running, frozen, eq_state, c_call, get_state, lxc_create, lxc_start, lxc_shutdown,
  set_cgroup,
}
use vasum.Server.Host.{ZoneConfig, ZoneDynamicConfig, NetdevCall, Host, zone_db_prefix}
use vasum.Server.Provision
use vasum.Server.Provision.{ZoneProvision}

pub record Zone : Type 0 where
  pub id : Text
  pub zones_path : Text
  pub db_path : Text
  pub config : ZoneConfig
  pub dynamic : ZoneDynamicConfig
  pub run_mount_point : Text
  pub root_path : Text
  pub detach_on_exit : Bool
  pub destroy_on_exit : Bool
  pub provision : ZoneProvision

abbrev pub state_stopped : Text
state_stopped = lit "stopped"

abbrev pub state_running : Text
state_running = lit "running"

abbrev pub state_paused : Text
state_paused = lit "paused"

pub data SchedulerLevel : Type 0 where
  foreground background : SchedulerLevel

abbrev default_cpu_shares : ℕ
default_cpu_shares = 1024

abbrev default_vcpu_period_ms : ℕ
default_vcpu_period_ms = 100000

-- vcpuQuota == -1 || (vcpuQuota >= 1000 && vcpuQuota <= ULLONG_MAX / 1000)
pub is_valid_quota : ℤ → Bool
is_valid_quota q = eq_ℤ q (negsuc 0) || leb_ℤ (pos 1000) q && leb_ℤ q (pos 18446744073709551)

abbrev is_utils : Exception → Bool
is_utils utils = true
is_utils _ = false

init_args : List Text → List Text
init_args [] = lit "/sbin/init" ∷ []
init_args (arg ∷ args) = arg ∷ args

module _ {W : Type 0} (h : Host W) where
  abbrev Method : Type 0 → Type 0
  Method A = Exec (Zone × W) A

  -- A method of the zone's provisions.
  unfoldable pub on_provision : {A : Type 0} → Exec (ZoneProvision × W) A → Method A
  on_provision = on_part (λ z. z.provision) (λ z p. record z { provision = p })

  -- A call on the zone's container.
  unfoldable pub on_container : {A : Type 0} → (Text → Exec W A) → Method A
  on_container m (z, w) = on_world (m z.id) (z, w)

  pub save_dynamic_config : Method (Unit {0})
  save_dynamic_config = do
    z ← gets (λ s. s.0)
    on_world (h.save_zone_dynamic z.db_path z.dynamic (zone_db_prefix z.id))

  pub update_requested_state : Text → Method (Unit {0})
  unfolding save_dynamic_config
  update_requested_state state = do
    z ← gets (λ s. s.0)
    when (not (state == z.dynamic.requested_state)) do
      modify (λ s. (record s.0 { dynamic = record s.0.dynamic { requested_state = state } }, s.1))
      save_dynamic_config

  pub is_in_state : State → Method Bool
  is_in_state state = do s ← on_container (get_state h.lxc); pure (eq_state s state)

  unfoldable pub is_running : Method Bool
  unfolding is_in_state
  is_running = is_in_state running

  pub is_stopped : Method Bool
  unfolding is_in_state
  is_stopped = is_in_state stopped

  pub is_paused : Method Bool
  unfolding is_in_state
  is_paused = is_in_state frozen

  unfoldable pub set_scheduler_params : ℕ → ℕ → ℤ → Method (Unit {0})
  unfolding is_valid_quota
  set_scheduler_params shares period quota = do
    assert (leb 1000 period && leb period 1000000)
    assert (is_valid_quota quota)
    catch is_utils
        (on_container λ id. do
          set_cgroup h.lxc id (lit "cpu") (lit "cpu.shares") (to_string (pos shares))
          set_cgroup h.lxc id (lit "cpu") (lit "cpu.cfs_period_us") (to_string (pos period))
          set_cgroup h.lxc id (lit "cpu") (lit "cpu.cfs_quota_us") (to_string quota))
        (λ _. throw zone_operation)

  quota_of : SchedulerLevel → ZoneConfig → ℤ
  quota_of foreground config = config.cpu_quota_foreground
  quota_of background config = config.cpu_quota_background

  unfoldable pub set_scheduler_level : SchedulerLevel → Method (Unit {0})
  unfolding quota_of
  set_scheduler_level level = do
    alive ← is_running
    assert alive
    z ← gets (λ s. s.0)
    set_scheduler_params default_cpu_shares default_vcpu_period_ms (quota_of level z.config)

  unfoldable pub go_foreground : Method (Unit {0})
  unfolding set_scheduler_level
  go_foreground = set_scheduler_level foreground

  unfoldable pub go_background : Method (Unit {0})
  unfolding set_scheduler_level
  go_background = set_scheduler_level background

  pub start : Method (Unit {0})
  unfolding init_args
  start = do
    update_requested_state state_running
    on_provision (Provision.start h.provisions)
    already ← is_running
    when (not already) do
      z ← gets (λ s. s.0)
      started ←
          on_container (λ id. lxc_start h.lxc id z.zones_path (init_args z.config.init_with_args))
      when (not started) (throw zone_operation)
      go_foreground

  -- Graceful shutdown, then forced.
  shut_down : Method (Unit {0})
  shut_down = do
    z ← gets (λ s. s.0)
    down ← on_container (λ id. lxc_shutdown h.lxc id z.zones_path z.config.shutdown_timeout)
    when (not down) do
      forced ← on_container (λ id. c_call (h.lxc.stop id))
      when (not forced) (throw zone_operation)

  pub stop : Bool → Method (Unit {0})
  unfolding shut_down
  stop save_state = do
    when save_state (update_requested_state state_stopped)
    alive ← is_running
    when alive go_foreground
    down ← is_stopped
    when (not down) do shut_down; on_provision (Provision.stop h.provisions)

  pub suspend : Method (Unit {0})
  suspend = do
    done ← on_container (λ id. c_call (h.lxc.freeze id))
    when (not done) (throw zone_operation)
    update_requested_state state_paused

  pub resume : Method (Unit {0})
  resume = do
    done ← on_container (λ id. c_call (h.lxc.unfreeze id))
    when (not done) (throw zone_operation)
    update_requested_state state_running

  -- A requested state that is none of the three fails an assertion.
  pub restore : Method (Unit {0})
  restore = do
    z ← gets (λ s. s.0)
    if z.dynamic.requested_state == state_running
        then start
        else if z.dynamic.requested_state == state_stopped
        then pure tt
        else if z.dynamic.requested_state == state_paused
        then start >> suspend
        else crash

  unfoldable pub activate_vt : Method Bool
  activate_vt = do
    z ← gets (λ s. s.0)
    if leb_ℤ (pos 0) z.dynamic.vt then on_world (c_call (h.activate_vt z.dynamic.vt)) else pure true

  pub set_detach_on_exit : Method (Unit {0})
  set_detach_on_exit = modify (λ s. (record s.0 { detach_on_exit = true }, s.1))

  unfoldable pub set_destroy_on_exit : Method (Unit {0})
  set_destroy_on_exit = modify (λ s. (record s.0 { destroy_on_exit = true }, s.1))
