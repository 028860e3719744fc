-- ===== src/Lxc.antt =====
-- The wrapper of liblxc's containers (common/lxc/zone.cpp, with USE_EXEC as CMakeLists.txt defines it)
-- and the cgroup and device helpers (common/lxc/cgroup.cpp). liblxc itself and the utils library are the
-- parameter `LxcApi`, whose functions act on an abstract world; the handle that `refresh` opens again
-- holds nothing in the model.
pub mod States
pub mod Devices
use vasum.Prelude.{
  ℕ, ◌+◌, Bool, true, false, ◌||◌, List, [], ◌∷◌, ◌++◌, Text, lit, ◌==◌, Option, none, some,
  is_empty, not, nat_eq, if◌then◌else◌,
}
use vasum.Prelude.Int.{ℤ, pos}
use vasum.Prelude.Decimal.{to_string}
use vasum.Prelude.Exec.{
  Exception, out_of_range, Outcome, ok, raised, Exec, pure, throw, gets, ◌>>=◌, ◌>>◌,
}

-- LxcZone::State
pub data State : Type 0 where
  stopped starting running stopping aborting freezing frozen thawed : State

-- What utils::stat tells of a device node.
pub record DeviceStat : Type 0 where
  pub is_chr : Bool
  pub is_blk : Bool
  pub major : ℕ
  pub minor : ℕ

-- liblxc by container name, and utils' processes and files. `Bool` is the success that a function returns.
pub record LxcApi (W : Type 0) : Type 0 where
  pub container_new : Text → Text → W → Bool × W
  pub state : Text → W → Text
  pub is_running : Text → W → Bool
  pub is_defined : Text → W → Bool
  pub init_pid : Text → W → ℤ
  pub execute_and_wait : Text → List Text → W → Bool × W
  pub destroy : Text → W → Bool × W
  pub stop : Text → W → Bool × W
  pub freeze : Text → W → Bool × W
  pub unfreeze : Text → W → Bool × W
  pub create_file_path : List Text → Text
  pub save_file_content : Text → Text → Exec W (Unit {0})
  pub stat : Text → Exec W DeviceStat

-- LxcZone::toString
pub state_name : State → Text
state_name stopped = lit "STOPPED"
state_name starting = lit "STARTING"
state_name running = lit "RUNNING"
state_name stopping = lit "STOPPING"
state_name aborting = lit "ABORTING"
state_name freezing = lit "FREEZING"
state_name frozen = lit "FROZEN"
state_name thawed = lit "THAWED"

-- STATE_MAP
unfoldable pub state_of : Text → Option State
unfolding state_name
state_of s =
    if s == lit "STOPPED"
    then some stopped
    else if s == lit "STARTING"
    then some starting
    else if s == lit "RUNNING"
    then some running
    else if s == lit "STOPPING"
    then some stopping
    else if s == lit "ABORTING"
    then some aborting
    else if s == lit "FREEZING"
    then some freezing
    else if s == lit "FROZEN"
    then some frozen
    else if s == lit "THAWED"
    then some thawed
    else none

abbrev pub eq_state : State → State → Bool
eq_state stopped stopped = true
eq_state running running = true
eq_state frozen frozen = true
eq_state starting starting = true
eq_state stopping stopping = true
eq_state aborting aborting = true
eq_state freezing freezing = true
eq_state thawed thawed = true
eq_state a b = false

-- O_RDONLY, O_WRONLY and O_RDWR are 0, 1 and 2.
pub flags_to_permissions : Bool → ℕ → Text
flags_to_permissions false flags = lit "rwm"
flags_to_permissions true flags =
    if nat_eq flags 2
    then lit "rwm"
    else if nat_eq flags 0
    then lit "rm"
    else if nat_eq flags 1
    then lit "wm"
    else []

-- A function of the C library: it does not throw.
unfoldable pub c_call : {W A : Type 0} → (W → A × W) → Exec W A
c_call f w = let (a, w') = f w in (ok a, w')

module _ {W : Type 0} (h : LxcApi W) (name : Text) where
  -- STATE_MAP.at(str)
  known_state : Option State → Exec W State
  known_state none = throw out_of_range
  known_state (some s) = pure s

  unfoldable pub get_state : Exec W State
  unfolding known_state
  get_state w = known_state (state_of (h.state name w)) w

  -- `if (*argv) args.add("--")`, and then the arguments.
  after_dashes : List Text → List Text
  after_dashes [] = []
  after_dashes (arg ∷ args) = lit "--" ∷ arg ∷ args

  pub lxc_create : Text → Text → List Text → Exec W Bool
  unfolding after_dashes
  lxc_create path template args = c_call (
      h.execute_and_wait (lit "/usr/bin/lxc-create") (
        lit "lxc-create"
        ∷ lit "-n"
        ∷ name
        ∷ lit "-t"
        ∷ template
        ∷ lit "-P"
        ∷ path
        ∷ after_dashes args))

  pub lxc_start : Text → List Text → Exec W Bool
  unfolding after_dashes
  lxc_start path args = do
    already ← gets (h.is_running name)
    if already then pure false else do
      executed ← c_call (
          h.execute_and_wait (lit "/usr/bin/lxc-start")
            (lit "lxc-start" ∷ lit "-d" ∷ lit "-n" ∷ name ∷ lit "-P" ∷ path ∷ after_dashes args))
      if not executed then pure false else gets (h.is_running name)

  pub lxc_shutdown : Text → ℤ → Exec W Bool
  lxc_shutdown path timeout = do
    s ← get_state
    if eq_state s stopped
        then pure true
        else if not (eq_state s running)
        then pure false
        else c_call (
            h.execute_and_wait (lit "/usr/bin/lxc-stop") (
              lit "lxc-stop"
              ∷ lit "-n"
              ∷ name
              ∷ lit "-P"
              ∷ path
              ∷ lit "-t"
              ∷ to_string timeout
              ∷ lit "--nokill"
              ∷ []))

  unfoldable pub set_cgroup : Text → Text → Text → Exec W (Unit {0})
  set_cgroup controller cgroup value =
      h.save_file_content
        (h.create_file_path (lit "/sys/fs/cgroup" ∷ controller ∷ lit "lxc" ∷ name ∷ cgroup ∷ []))
        value

  -- The rest of setDeviceAccess, once the permissions are known.
  write_access : Bool → Text → DeviceStat → Text → Exec W Bool
  unfolding set_cgroup
  write_access grant type s perm = do
    set_cgroup (lit "devices") (if grant then lit "devices.allow" else lit "devices.deny") (
        type
        ++ (lit " "
            ++ (to_string (pos s.major)
                ++ (lit ":" ++ (to_string (pos s.minor) ++ (lit " " ++ perm))))))
    pure true

  pub set_device_access : Text → Bool → ℕ → Exec W Bool
  unfolding write_access
  set_device_access device grant flags = do
    s ← h.stat device
    if not (s.is_chr || s.is_blk)
        then pure false
        else if is_empty (flags_to_permissions grant flags)
        then pure false
        else write_access grant (if s.is_chr then lit "c" else lit "b") s
            (flags_to_permissions grant flags)

pub is_device : {W : Type 0} → LxcApi W → Text → Exec W Bool
is_device h device = do s ← h.stat device; pure (s.is_chr || s.is_blk)
