-- ===== src/Lxcpp/Container.antt =====
-- A container as the process sees it that starts it (libs/lxcpp/container-impl.cpp): its state, its constructor, and what its
-- methods call. A method acts on the container and a world. Its mutex makes each method one step.
pub mod Terminals
pub mod Stale
pub mod Settings
pub mod Lifecycle
pub mod Keeps
pub mod Sound
pub mod Events
pub mod Sample
use vasum.Prelude.{
  ℕ, Bool, true, false, List, [], ◌∷◌, ◌++◌, Text, lit, ◌==◌, is_empty, Option, none, some,
  if◌then◌else◌,
}
use vasum.Prelude.Int.{ℤ}
use vasum.Prelude.Exec.{
  Outcome, ok, raised, crashed, Exec, pure, throw, gets, of_outcome, modify, when, configure, ◌>>=◌,
  ◌>>◌, on_world,
}
use vasum.Lxcpp.ContainerConfig.{ContainerConfig, State, new_config, no_namespaces}

-- The calls to the guard that are answered later.
pub data GuardCall : Type 0 where
  set_config : ContainerConfig → GuardCall
  start_init : GuardCall
  stop_init : GuardCall

-- What the methods call outside of the modelled code: the utils library, the client of cargo::ipc, the kernel, and the
-- callbacks of the owner of the container, which are numbered.
pub record ContainerHost (W : Type 0) : Type 0 where
  pub assert_is_dir : Text → Exec W (Unit {0})
  pub assert_is_absolute : Text → Exec W (Unit {0})
  pub dir_name : Text → Text
  pub socket_path_of : (work_path name : Text) → Text
  pub path_in : (directory name : Text) → Text
  pub new_client : Text → Exec W (Unit {0})
  pub watch : Text → Exec W (Unit {0})
  pub is_executable : Text → W → Bool
  pub client_start : Exec W (Unit {0})
  pub call_async : GuardCall → Exec W (Unit {0})
  pub invoke : ℕ → Exec W (Unit {0})
  pub open_pty : Exec W (ℤ × Text)
  pub open_pty_at : Text → Exec W (ℤ × Text)
  pub chown : Text → ℕ → Exec W (Unit {0})
  pub close : ℤ → Exec W (Unit {0})
  pub fork_daemonize : ContainerConfig → Exec W ℤ
  pub waitpid : ℤ → Exec W ℤ
  pub attach : ContainerConfig → List (Text × Text) → Exec W ℤ

pub record Container : Type 0 where
  pub config : ContainerConfig
  pub started_callback : Option ℕ
  pub stopped_callback : Option ℕ
  pub connected_callback : Option ℕ

abbrev pub Method : Type 0 → Type 0 → Type 0
Method W A = Exec (Container × W) A

module _ {W : Type 0} where
  unfoldable pub self : Method W ContainerConfig
  self = gets (λ s. s.0.config)

  unfoldable pub change : (ContainerConfig → ContainerConfig) → Method W (Unit {0})
  change f = modify (λ s. (record s.0 { config = f s.0.config }, s.1))

  unfoldable pub set_state : State → Method W (Unit {0})
  unfolding change
  set_state to = change (λ c. record c { state = to })

  unfoldable pub call_back : ContainerHost W → Option ℕ → Method W (Unit {0})
  call_back h none = pure tt
  call_back h (some f) = on_world (h.invoke f)

-- The configuration that the constructor fills in.
abbrev pub first_config : Text → Text → Text → Text → ContainerConfig
first_config name root_path work_path socket_path = record new_config {
  name = name;
  host_name = name;
  root_path = root_path;
  work_path = work_path;
  namespaces = record no_namespaces {
    new_ns = true;
    new_pid = true;
    new_ipc = true;
    new_uts = true;
  };
  socket_path = socket_path;
}

unfoldable pub new_container :
    {W : Type 0} → ContainerHost W → Text → Text → Text → Exec W Container
new_container h name root_path work_path = do
  when (is_empty name) (throw configure)
  h.assert_is_dir root_path
  h.assert_is_dir work_path
  h.assert_is_absolute root_path
  h.assert_is_absolute work_path
  when (h.dir_name work_path == lit "/") (throw configure)
  let socket_path = h.socket_path_of work_path name
  h.new_client socket_path
  h.watch work_path
  pure (record {
    config = first_config name root_path work_path socket_path;
    started_callback = none;
    stopped_callback = none;
    connected_callback = none;
  })
