-- ===== src/Server/Provision.antt =====
-- What a zone is provisioned with: files, mounts and links (server/zone-provision.cpp,
-- server/zone-provision-config.hpp). The file system, the paths of boost and the key-value store are
-- the parameter `ProvisionHost`.
pub mod Ids
pub mod Entries
pub mod Declare
pub mod Mounts
pub mod Left
pub mod Links
pub mod Examples
use vasum.Prelude.{
  ℕ, ◌+◌, ◌-◌, ◌/◌, ◌%◌, Bool, true, false, ◌&&◌, List, [], ◌∷◌, ◌++◌, Text, lit, ◌==◌, leb, nat_eq,
  not, length, if◌then◌else◌,
}
use vasum.Prelude.Int.{ℤ, pos, negsuc, eq_ℤ}
use vasum.Prelude.Decimal.{to_string}
use vasum.Prelude.Exec.{
  Exception, provision_exists, provision_not_found, provision_not_supported, utils, Outcome, ok,
  raised, crashed, Exec, pure, throw, gets, of_outcome, catch, modify, is_exception, ◌>>=◌, ◌>>◌,
  on_world,
}

-- ZoneProvisioningConfig::Provision, a union; `unset` is a union that holds nothing.
pub data Provision : Type 0 where
  file : (type : ℤ) (path : Text) (flags mode : ℤ) → Provision
  mount : (source target type : Text) (flags : ℤ) (options : Text) → Provision
  link : (source target : Text) → Provision
  unset : Provision

pub get_id : Provision → Outcome Text
get_id (file type path flags mode) = ok (
    lit "file "
    ++ (path
        ++ lit " "
        ++ (to_string type ++ lit " " ++ (to_string flags ++ lit " " ++ to_string mode))))
get_id (mount source target type flags options) = ok (
    lit "mount "
    ++ (source
        ++ lit " "
        ++ (target ++ lit " " ++ (type ++ lit " " ++ (to_string flags ++ lit " " ++ options)))))
get_id (link source target) = ok (lit "link " ++ (source ++ lit " " ++ target))
get_id unset = raised provision_not_supported

pub record ZoneProvision : Type 0 where
  pub provisions : List Provision
  pub root_path : Text
  pub db_path : Text
  pub db_prefix : Text
  pub valid_link_prefixes : List Text
  pub provisioned : List Provision

-- What the code calls outside of it: the key-value store of cargo, boost's paths, utils' file system.
pub record ProvisionHost (W : Type 0) : Type 0 where
  pub save_provisions : Text → Text → List Provision → Exec W (Unit {0})
  pub join_path : Text → Text → Text
  pub normalize : Text → Text
  pub create_dirs : Text → ℤ → Exec W (Unit {0})
  pub create_fifo : Text → ℤ → Exec W (Unit {0})
  pub create_file : Text → ℤ → ℤ → Exec W (Unit {0})
  pub copy_file : Text → Text → Exec W (Unit {0})
  pub mount_fs : Text → Text → Text → ℤ → Text → Exec W (Unit {0})
  pub umount_fs : Text → Exec W (Unit {0})
  pub create_link : Text → Text → Exec W (Unit {0})

-- VsmFileType
abbrev vsmfile_directory : ℤ
vsmfile_directory = pos 0

abbrev vsmfile_fifo : ℤ
vsmfile_fifo = pos 1

abbrev vsmfile_regular : ℤ
vsmfile_regular = pos 2

-- flags & O_CREAT of a 32-bit int in two's complement; O_CREAT is 0x40.
unfoldable pub has_o_creat : ℤ → Bool
has_o_creat (pos n) = nat_eq (n / 64 % 2) 1
has_o_creat (negsuc n) = nat_eq (n / 64 % 2) 0

abbrev pub take {ℓ} : {A : Type ℓ} → ℕ → List A → List A
take ℕ.zero xs = []
take (ℕ.suc n) [] = []
take (ℕ.suc n) (x ∷ xs) = x ∷ take n xs

-- prefix.length() <= s.length() && s.compare(0, prefix.length(), prefix) == 0
pub has_prefix : Text → Text → Bool
has_prefix s prefix = leb (length prefix) (length s) && take (length prefix) s == prefix

-- std::find_if by id: an entry that holds nothing throws when its id is asked for.
pub find_id : Text → List Provision → Outcome Bool
find_id id [] = ok false
find_id id (p ∷ ps) = elim (get_id p) [
  | ok i ↦ if i == id then ok true else find_id id ps
  | raised e ↦ raised e
  | crashed ↦ crashed
]

-- The list without the entry that `find_id` stops at.
pub erase_id : Text → List Provision → List Provision
erase_id id [] = []
erase_id id (p ∷ ps) = elim (get_id p) [
  | ok i ↦ if i == id then ps else p ∷ erase_id id ps
  | raised e ↦ p ∷ ps
  | crashed ↦ p ∷ ps
]

-- ZoneProvision::list
pub list : List Provision → Outcome (List Text)
list [] = ok []
list (p ∷ ps) = elim (get_id p) [
  | ok i ↦ elim (list ps) [ ok is ↦ ok (i ∷ is) | raised e ↦ raised e | crashed ↦ crashed ]
  | raised e ↦ raised e
  | crashed ↦ crashed
]

module _ {W : Type 0} (h : ProvisionHost W) where
  -- A call of the world that leaves the object alone.
  abbrev Method : Type 0 → Type 0
  Method A = Exec (ZoneProvision × W) A

  save_provisioning_config : Method (Unit {0})
  save_provisioning_config = do
    self ← gets (λ s. s.0)
    on_world (h.save_provisions self.db_path self.db_prefix self.provisions)

  pub declare_provision : Provision → Method Text
  unfolding save_provisioning_config
  declare_provision p = do
    id ← of_outcome (get_id p)
    self ← gets (λ s. s.0)
    found ← of_outcome (find_id id self.provisions)
    if found then throw provision_exists else do
      modify (λ s. (record s.0 { provisions = s.0.provisions ++ p ∷ [] }, s.1))
      save_provisioning_config
      pure id

  pub declare_file : ℤ → Text → ℤ → ℤ → Method Text
  declare_file type path flags mode = declare_provision (file type path flags mode)

  pub declare_mount : Text → Text → Text → ℤ → Text → Method Text
  declare_mount source target type flags options =
      declare_provision (mount source target type flags options)

  pub declare_link : Text → Text → Method Text
  declare_link source target = declare_provision (link source target)

  pub remove : Text → Method (Unit {0})
  remove item = do
    self ← gets (λ s. s.0)
    found ← of_outcome (find_id item self.provisions)
    if not found
        then throw provision_not_found
        else modify (λ s. (record s.0 { provisions = erase_id item s.0.provisions }, s.1))

  pub list_declarations : Method (List Text)
  list_declarations = do self ← gets (λ s. s.0); of_outcome (list self.provisions)

  -- ZoneProvision::file; a type that is none of the three is passed over.
  pub provide_file : Text → ℤ → Text → ℤ → ℤ → Exec W (Unit {0})
  provide_file root type path flags mode =
      if eq_ℤ type vsmfile_directory
      then h.create_dirs (h.join_path root path) mode
      else if eq_ℤ type vsmfile_fifo
      then h.create_fifo (h.join_path root path) mode
      else if not (eq_ℤ type vsmfile_regular)
      then pure tt
      else if has_o_creat flags
      then h.create_file (h.join_path root path) flags mode
      else h.copy_file path (h.join_path root path)

  -- ZoneProvision::link, over the prefixes that are left to try.
  pub provide_link : List Text → Text → Text → Text → Exec W (Unit {0})
  provide_link [] root source target = throw utils
  provide_link (prefix ∷ prefixes) root source target =
      let rest = provide_link prefixes root source target in
      if has_prefix (h.normalize source) prefix
      then h.create_link (h.normalize source) (h.join_path root target)
      else rest

  pub umount : Text → Text → Exec W (Unit {0})
  umount root target = h.umount_fs (h.join_path root target)

  pub provide : ZoneProvision → Provision → Exec W (Unit {0})
  unfolding provide_file provide_link
  provide self (file type path flags mode) = provide_file self.root_path type path flags mode
  provide self (mount source target type flags options) =
      h.mount_fs source (h.join_path self.root_path target) type flags options
  provide self (link source target) =
      provide_link self.valid_link_prefixes self.root_path source target
  provide self unset = pure tt

  -- One round of the loop of ZoneProvision::start.
  start_one : Provision → Method (Unit {0})
  unfolding provide
  start_one p =
      catch is_exception
        (do
          self ← gets (λ s. s.0)
          on_world (provide self p)
          modify (λ s. (record s.0 { provisioned = p ∷ s.0.provisioned }, s.1)))
        (λ _. pure tt)

  start_loop : List Provision → Method (Unit {0})
  unfolding start_one
  start_loop [] = pure tt
  start_loop (p ∷ ps) = do start_one p; start_loop ps

  pub start : Method (Unit {0})
  unfolding start_loop
  start = do self ← gets (λ s. s.0); start_loop self.provisions

  -- The predicate of ZoneProvision::stop: is the entry dealt with?
  stop_one : ZoneProvision → Provision → Exec W Bool
  unfolding umount
  stop_one self (mount source target type flags options) =
      catch is_exception (do umount self.root_path target; pure true) (λ _. pure false)
  stop_one self p = pure true

  -- std::list::remove_if: what the predicate does not accept stays, in order.
  stop_loop : ZoneProvision → List Provision → Exec W (List Provision)
  unfolding stop_one
  stop_loop self [] = pure []
  stop_loop self (p ∷ ps) = do
    done ← stop_one self p
    rest ← stop_loop self ps
    pure (if done then rest else p ∷ rest)

  unfoldable pub stop : Method (Unit {0})
  unfolding stop_loop
  stop = do
    self ← gets (λ s. s.0)
    left ← on_world (stop_loop self self.provisioned)
    modify (λ s. (record s.0 { provisioned = left }, s.1))
