-- ===== src/Lxcpp/Container/Settings.antt =====
-- The methods that configure a container (libs/lxcpp/container-impl.cpp).
use vasum.Prelude.{
  ℕ, Bool, true, false, List, [], ◌∷◌, ◌++◌, Text, lit, ◌==◌, is_empty, nat_eq, if◌then◌else◌, ◌||◌,
}
use vasum.Prelude.Int.{ℤ}
use vasum.Prelude.Exec.{
  Outcome, throw, gets, of_outcome, when, configure, not_implemented, ◌>>=◌, ◌>>◌,
}
use vasum.Lxcpp.UserNamespace.{IdRange, add_map}
use vasum.Lxcpp.ProvisionConfig.{Item, add, remove}
use vasum.Lxcpp.NetworkConfig.{
  InetAddr, InterfaceConfigType, MacVLanMode, add_interface_config, add_inet_config,
}
use vasum.Lxcpp.ContainerConfig.{ContainerConfig}
use vasum.Lxcpp.Container.{ContainerHost, Method, self, change}

-- One constructor for each method, with its arguments.
pub data Setting : Type 0 where
  host_name_call : Text → Setting
  init_call : List Text → Setting
  logger_call : ℕ → ℕ → Text → Setting
  terminal_count_call : ℕ → Setting
  uid_map_call : IdRange → Setting
  gid_map_call : IdRange → Setting
  smack_label_map_call : Text → Text → Setting
  interface_call : InterfaceConfigType → Text → Text → List InetAddr → MacVLanMode → Setting
  inet_call : Text → InetAddr → Setting
  declare_call : Item → Setting
  remove_declared_call : Item → Setting
  subsystem_call : Text → Text → Setting
  cgroup_call : Text → Text → List (Text × Text) → List (Text × Text) → Setting
  env_call : List (Text × Text) → Setting
  caps_call : ℕ → Setting
  kernel_parameter_call : Text → Text → Setting
  rlimit_call : ℤ → ℕ → ℕ → Setting
  namespaces_call user_call device_call hook_call : Setting

-- A std::map's operator[] and emplace: the value of the key, in its place or, where the key is new, at the end.
unfoldable pub put_entry : Text → Text → List (Text × Text) → List (Text × Text)
put_entry name value [] = (name, value) ∷ []
put_entry name value ((n, v) ∷ rest) =
    if n == name then (n, value) ∷ rest else (n, v) ∷ put_entry name value rest

abbrev pub with_user : ContainerConfig → ContainerConfig
with_user c = record c { namespaces = record c.namespaces { new_user = true } }

abbrev pub first_is_empty : List Text → Bool
first_is_empty [] = true
first_is_empty (p ∷ ps) = is_empty p

abbrev pub first_or_empty : List Text → Text
first_or_empty [] = []
first_or_empty (p ∷ ps) = p

module _ {W : Type 0} where
  -- A change to what a fallible call on the configuration returns.
  unfoldable pub update_by :
      {B : Type 0}
      → (ContainerConfig → Outcome B)
      → (B → ContainerConfig → ContainerConfig)
      → Method W (Unit {0})
  unfolding self change
  update_by f put = do c ← self; b ← of_outcome (f c); change (put b)

  -- access(path, X_OK)
  unfoldable pub can_execute : ContainerHost W → Text → Method W Bool
  can_execute h path = gets (λ s. h.is_executable path s.1)

  unfoldable pub set_host_name : Text → Method W (Unit {0})
  unfolding change
  set_host_name hostname = do
    when (is_empty hostname) (throw configure)
    change (λ c. record c { host_name = hostname })

  unfoldable pub set_init : ContainerHost W → List Text → Method W (Unit {0})
  unfolding self change can_execute
  set_init h init = do
    when (first_is_empty init) (throw configure)
    c ← self
    executable ← can_execute h (c.root_path ++ lit "/" ++ first_or_empty init)
    when (if executable then false else true) (throw configure)
    change (λ c'. record c' { init = init })

  unfoldable pub set_logger : ℕ → ℕ → Text → Method W (Unit {0})
  unfolding change
  set_logger log_type level arg =
      change (λ c. record c { logger = record { log_type = log_type; level = level; arg = arg } })

  unfoldable pub set_terminal_count : ℕ → Method W (Unit {0})
  unfolding change
  set_terminal_count count = do
    when (nat_eq count 0) (throw configure)
    change (λ c. record c { terminals = record c.terminals { count = count } })

  unfoldable pub add_uid_map : IdRange → Method W (Unit {0})
  unfolding change update_by
  add_uid_map r = do
    change with_user
    update_by (λ c. add_map c.user_ns.uid_maps r)
        (λ maps c. record c { user_ns = record c.user_ns { uid_maps = maps } })

  unfoldable pub add_gid_map : IdRange → Method W (Unit {0})
  unfolding change update_by
  add_gid_map r = do
    change with_user
    update_by (λ c. add_map c.user_ns.gid_maps r)
        (λ maps c. record c { user_ns = record c.user_ns { gid_maps = maps } })

  unfoldable pub add_smack_label_map : Text → Text → Method W (Unit {0})
  unfolding change
  add_smack_label_map original mapped =
      change (λ c. record c { label_map = c.label_map ++ (original, mapped) ∷ [] })

  unfoldable pub add_interface :
      InterfaceConfigType → Text → Text → List InetAddr → MacVLanMode → Method W (Unit {0})
  unfolding change update_by
  add_interface interface_type host_if zone_if addrs mode = do
    change (λ c. record c { namespaces = record c.namespaces { new_net = true } })
    update_by (λ c. add_interface_config c.interfaces interface_type host_if zone_if addrs mode)
        (λ interfaces c. record c { interfaces = interfaces })

  unfoldable pub add_inet : Text → InetAddr → Method W (Unit {0})
  unfolding update_by
  add_inet ifname addr =
      update_by (λ c. add_inet_config c.interfaces ifname addr)
        (λ interfaces c. record c { interfaces = interfaces })

  unfoldable pub declare : Item → Method W (Unit {0})
  unfolding update_by
  declare item =
      update_by (λ c. add c.provisions item) (λ provisions c. record c { provisions = provisions })

  unfoldable pub remove_provision : Item → Method W (Unit {0})
  unfolding update_by
  remove_provision item =
      update_by (λ c. remove c.provisions item)
        (λ provisions c. record c { provisions = provisions })

  unfoldable pub add_subsystem : Text → Text → Method W (Unit {0})
  unfolding change
  add_subsystem name path =
      change
        (λ c. record c { subsystems = c.subsystems ++ record { name = name; path = path } ∷ [] })

  unfoldable pub add_cgroup :
      Text → Text → List (Text × Text) → List (Text × Text) → Method W (Unit {0})
  unfolding change
  add_cgroup subsystem name common params = change (λ c. record c {
    cgroups =
        c.cgroups
        ++ record { subsystem = subsystem; name = name; common = common; params = params } ∷ [];
  })

  unfoldable pub set_env : List (Text × Text) → Method W (Unit {0})
  unfolding change
  set_env variables = change (λ c. record c { env_to_set = variables })

  unfoldable pub set_caps : ℕ → Method W (Unit {0})
  unfolding change
  set_caps caps = change (λ c. record c { caps_to_keep = caps })

  unfoldable pub set_kernel_parameter : Text → Text → Method W (Unit {0})
  unfolding change
  set_kernel_parameter name value = do
    when (is_empty name || is_empty value) (throw configure)
    change (λ c. record c { kernel_parameters = put_entry name value c.kernel_parameters })

  unfoldable pub set_rlimit : ℤ → ℕ → ℕ → Method W (Unit {0})
  unfolding change
  set_rlimit resource soft hard =
      change (λ c. record c { rlimits = c.rlimits ++ (resource, soft, hard) ∷ [] })

  unfoldable pub set_namespaces : Method W (Unit {0})
  set_namespaces = throw not_implemented

  unfoldable pub set_user : Method W (Unit {0})
  set_user = throw not_implemented

  unfoldable pub add_device : Method W (Unit {0})
  add_device = throw not_implemented

  unfoldable pub add_hook : Method W (Unit {0})
  add_hook = throw not_implemented

module _ {W : Type 0} (h : ContainerHost W) where
  unfoldable pub set_up : Setting → Method W (Unit {0})
  unfolding set_host_name set_init set_logger set_terminal_count add_uid_map add_gid_map
      add_smack_label_map add_interface add_inet declare remove_provision add_subsystem add_cgroup
      set_env set_caps set_kernel_parameter set_rlimit set_namespaces set_user add_device add_hook
  set_up (host_name_call hostname) = set_host_name hostname
  set_up (init_call init) = set_init h init
  set_up (logger_call log_type level arg) = set_logger log_type level arg
  set_up (terminal_count_call count) = set_terminal_count count
  set_up (uid_map_call r) = add_uid_map r
  set_up (gid_map_call r) = add_gid_map r
  set_up (smack_label_map_call original mapped) = add_smack_label_map original mapped
  set_up (interface_call interface_type host_if zone_if addrs mode) =
      add_interface interface_type host_if zone_if addrs mode
  set_up (inet_call ifname addr) = add_inet ifname addr
  set_up (declare_call item) = declare item
  set_up (remove_declared_call item) = remove_provision item
  set_up (subsystem_call name path) = add_subsystem name path
  set_up (cgroup_call subsystem name common params) = add_cgroup subsystem name common params
  set_up (env_call variables) = set_env variables
  set_up (caps_call caps) = set_caps caps
  set_up (kernel_parameter_call name value) = set_kernel_parameter name value
  set_up (rlimit_call resource soft hard) = set_rlimit resource soft hard
  set_up namespaces_call = set_namespaces
  set_up user_call = set_user
  set_up device_call = add_device
  set_up hook_call = add_hook
