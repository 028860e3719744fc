-- ===== src/Lxcpp/ContainerConfig.antt =====
-- What a container and its guard are configured with (libs/lxcpp/container-config.hpp and pty-config.hpp), as far as the code
-- of container-impl.cpp and of guard/guard.cpp reads it.
use vasum.Prelude.{ℕ, Bool, false, List, [], Text, lit}
use vasum.Prelude.Int.{ℤ, negsuc}
use vasum.Lxcpp.UserNamespace.{UserNsConfig}
use vasum.Lxcpp.ProvisionConfig.{ProvisionConfig}
use vasum.Lxcpp.NetworkConfig.{NetworkInterfaceConfig}

-- Container::State
pub data State : Type 0 where
  stopped stopping starting running connecting : State

pub record PtyConfig : Type 0 where
  pub master_fd : ℤ
  pub pts_name : Text

pub record PtysConfig : Type 0 where
  pub count : ℕ
  pub uid : ℕ
  pub devpts_path : Text
  pub ptys : List PtyConfig

-- The bits of `mNamespaces` that the code sets and tests.
pub record Namespaces : Type 0 where
  pub new_ns : Bool
  pub new_pid : Bool
  pub new_ipc : Bool
  pub new_uts : Bool
  pub new_user : Bool
  pub new_net : Bool

pub record SubsystemConfig : Type 0 where
  pub name : Text
  pub path : Text

pub record CgroupConfig : Type 0 where
  pub subsystem : Text
  pub name : Text
  pub common : List (Text × Text)
  pub params : List (Text × Text)

pub record LoggerConfig : Type 0 where
  pub log_type : ℕ
  pub level : ℕ
  pub arg : Text

pub record ContainerConfig : Type 0 where
  pub name : Text
  pub host_name : Text
  pub root_path : Text
  pub work_path : Text
  pub old_root : Text
  pub socket_path : Text
  pub guard_pid : ℤ
  pub init_pid : ℤ
  pub state : State
  pub exit_status : ℤ
  pub interfaces : List NetworkInterfaceConfig
  pub init : List Text
  pub logger : LoggerConfig
  pub terminals : PtysConfig
  pub namespaces : Namespaces
  pub pts_gid : ℕ
  pub provisions : ProvisionConfig
  pub user_ns : UserNsConfig
  pub label_map : List (Text × Text)
  pub subsystems : List SubsystemConfig
  pub cgroups : List CgroupConfig
  pub caps_to_keep : ℕ
  pub env_to_set : List (Text × Text)
  pub rlimits : List (ℤ × ℕ × ℕ)
  pub kernel_parameters : List (Text × Text)

abbrev pub no_namespaces : Namespaces
no_namespaces = record {
  new_ns = false;
  new_pid = false;
  new_ipc = false;
  new_uts = false;
  new_user = false;
  new_net = false;
}

-- The constructor. The logger's type LOG_NULL is 0 here, and its level is not set.
unfoldable pub new_config : ContainerConfig
new_config = record {
  name = [];
  host_name = [];
  root_path = [];
  work_path = [];
  old_root = lit "/.oldroot";
  socket_path = [];
  guard_pid = negsuc 0;
  init_pid = negsuc 0;
  state = stopped;
  exit_status = negsuc 27181;
  interfaces = [];
  init = [];
  logger = record { log_type = 0; level = 0; arg = [] };
  terminals = record { count = 1; uid = 0; devpts_path = []; ptys = [] };
  namespaces = no_namespaces;
  pts_gid = 5;
  provisions = record { files = []; mounts = []; links = [] };
  user_ns = record { uid_maps = []; gid_maps = [] };
  label_map = [];
  subsystems = [];
  cgroups = [];
  caps_to_keep = 18446744073709551615;
  env_to_set = [];
  rlimits = [];
  kernel_parameters = [];
}
