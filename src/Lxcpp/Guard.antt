-- ===== src/Lxcpp/Guard.antt =====
-- The guard, the process that starts and watches the init process of one container (libs/lxcpp/guard/guard.cpp). It is one
-- thread, so each handler is one step; it acts on the guard and a world. A handler returns what it puts into the result of
-- the call. Using the configuration before it was set, and an index out of range, are crashes.
pub mod Handlers
pub mod Views
pub mod Config
mod Examples
use vasum.Prelude.{
  ℕ, zero, suc, ◌≡◌, Bool, true, false, List, [], ◌∷◌, ◌++◌, Text, lit, is_empty, Option, none,
  some, map, if◌then◌else◌,
}
use vasum.Prelude.Int.{ℤ, eq_ℤ}
use vasum.Prelude.Exec.{
  Outcome, Exec, pure, crash, gets, of_outcome, modify, catch, is_exception, ◌>>=◌, ◌>>◌, on_world,
  on_part,
}
use vasum.Lxcpp.UserNamespace.{conv_cont_to_host_id}
use vasum.Lxcpp.ContainerConfig.{
  ContainerConfig, PtyConfig, PtysConfig, LoggerConfig, State, stopped, stopping, starting, running,
}
use vasum.Lxcpp.Container.{ContainerHost}
use vasum.Lxcpp.Container.Terminals.{prepare, revert}
use vasum.Lxcpp.Relay.{Relay, new_relay}

-- The commands that set a container up, from libs/lxcpp/commands.
pub data Command : Type 0 where
  prep_dev_fs revert_dev_fs provide unprovide make_cgroups : ContainerConfig → Command
  setup_user_ns create_networks setup_smack_ns assign_cgroups : ContainerConfig → Command

-- The calls to the host.
pub data HostCall : Type 0 where
  guard_ready : HostCall
  guard_connected : ContainerConfig → HostCall
  init_stopped : ℤ → HostCall

pub data Reply : Type 0 where
  void set_config_error : Reply
  pid : ℤ → Reply
  saved : Option ContainerConfig → Reply

pub record GuardHost (W : Type 0) : Type 0 where
  pub terminals : ContainerHost W
  pub run : Command → Exec W (Unit {0})
  pub open_tty : Text → Exec W ℤ
  pub add_fd : ℤ → Exec W (Unit {0})
  pub remove_fd : ℤ → Exec W (Unit {0})
  pub clone : ContainerConfig → Exec W ℤ
  pub sync_container : Exec W (Unit {0})
  pub set_proc_title : Text → Exec W (Unit {0})
  pub setup_logger : LoggerConfig → Exec W (Unit {0})
  pub kill : ℤ → Exec W (Unit {0})
  pub copy_window_size : (from to : ℤ) → Exec W (Unit {0})
  pub call_host : Text → HostCall → Exec W (Unit {0})
  pub stop_service : Exec W (Unit {0})

-- `ptys` are the terminals of the container, `impl_slave_fds` those of the host.
pub record Guard : Type 0 where
  pub peer_id : Text
  pub config : Option ContainerConfig
  pub impl_slave_fds : List ℤ
  pub ptys : PtysConfig
  pub relays : List Relay

unfoldable pub new_guard : Guard
new_guard = record {
  peer_id = [];
  config = none;
  impl_slave_fds = [];
  ptys = record { count = 1; uid = 0; devpts_path = []; ptys = [] };
  relays = [];
}

abbrev pub Method : Type 0 → Type 0 → Type 0
Method W A = Exec (Guard × W) A

abbrev pub replicate : ℕ → Relay → List Relay
replicate zero r = []
replicate (suc n) r = r ∷ replicate n r

abbrev pub nth : List ℤ → ℕ → Option ℤ
nth [] i = none
nth (x ∷ xs) zero = some x
nth (x ∷ xs) (suc i) = nth xs i

abbrev pub master_fds : List PtyConfig → List ℤ
master_fds [] = []
master_fds (p ∷ ps) = p.master_fd ∷ master_fds ps

module _ {W : Type 0} where
  unfoldable pub deref : {A : Type 0} → Option A → Method W A
  deref none = crash
  deref (some a) = pure a

  unfoldable pub self : Method W Guard
  self = gets (λ s. s.0)

  -- *mConfig
  unfoldable pub config_of : Method W ContainerConfig
  unfolding deref self
  config_of = do g ← self; deref g.config

  unfoldable pub update : (Guard → Guard) → Method W (Unit {0})
  update f = modify (λ s. (f s.0, s.1))

  -- A write through mConfig, where it is set.
  unfoldable pub change : (ContainerConfig → ContainerConfig) → Method W (Unit {0})
  unfolding config_of update
  change f = do c ← config_of; update (λ g. record g { config = some (f c) })

  unfoldable pub on_ptys : Exec (PtysConfig × W) (Unit {0}) → Method W (Unit {0})
  on_ptys = on_part (λ g. g.ptys) (λ g t. record g { ptys = t })
