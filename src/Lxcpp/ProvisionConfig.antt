-- ===== src/Lxcpp/ProvisionConfig.antt =====
-- The files, mounts and links that a container provides (libs/lxcpp/provision-config.cpp and .hpp). The three kinds are
-- kept in three lists by the same code, over the equality of the kind.
pub mod Lists
pub mod Items
use vasum.Prelude.{
  ◌≡◌, Bool, true, false, List, [], ◌∷◌, ◌++◌, Text, lit, ◌==◌, any, erase_first, if◌then◌else◌,
  ◌&&◌,
}
use vasum.Prelude.Int.{ℤ, pos, eq_ℤ}
use vasum.Prelude.Decimal.{to_string}
use vasum.Prelude.Exec.{Outcome, ok, raised, provision_error}

pub data FileType : Type 0 where
  directory fifo regular : FileType

-- static_cast<int>(type)
abbrev pub file_type_int : FileType → ℤ
file_type_int directory = pos 0
file_type_int fifo = pos 1
file_type_int regular = pos 2

pub record File : Type 0 where
  pub file_type : FileType
  pub path : Text
  pub flags : ℤ
  pub mode : ℤ

pub record Mount : Type 0 where
  pub source : Text
  pub target : Text
  pub fs_type : Text
  pub flags : ℤ
  pub options : Text

pub record Link : Type 0 where
  pub source : Text
  pub target : Text

unfoldable pub file_id : File → Text
file_id f =
    lit "file "
    ++ f.path
    ++ lit " "
    ++ to_string (file_type_int f.file_type)
    ++ lit " "
    ++ to_string f.flags
    ++ lit " "
    ++ to_string f.mode

unfoldable pub mount_id : Mount → Text
mount_id m =
    lit "mount "
    ++ m.source
    ++ lit " "
    ++ m.target
    ++ lit " "
    ++ m.fs_type
    ++ lit " "
    ++ to_string m.flags
    ++ lit " "
    ++ m.options

unfoldable pub link_id : Link → Text
link_id l = lit "link " ++ l.source ++ lit " " ++ l.target

unfoldable pub file_eq : File → File → Bool
file_eq m f =
    eq_ℤ (file_type_int m.file_type) (file_type_int f.file_type)
    && m.path == f.path
    && eq_ℤ m.flags f.flags
    && eq_ℤ m.mode f.mode

unfoldable pub mount_eq : Mount → Mount → Bool
mount_eq m n =
    m.source == n.source
    && m.target == n.target
    && m.fs_type == n.fs_type
    && eq_ℤ m.flags n.flags
    && m.options == n.options

unfoldable pub link_eq : Link → Link → Bool
link_eq m l = m.source == l.source && m.target == l.target

module _ {A : Type 0} (eq : A → A → Bool) where
  -- std::find and push_back
  unfoldable pub add_item : List A → A → Outcome (List A)
  add_item items new =
      if any (λ a. eq a new) items then raised provision_error else ok (items ++ new ∷ [])

  -- std::find and erase
  unfoldable pub remove_item : List A → A → Outcome (List A)
  remove_item items item =
      if any (λ a. eq a item) items
      then ok (erase_first (λ a. eq a item) items)
      else raised provision_error

pub record ProvisionConfig : Type 0 where
  pub files : List File
  pub mounts : List Mount
  pub links : List Link

-- What the outcome for one list makes of the three.
abbrev pub with_list :
    {A : Type 0} → (List A → ProvisionConfig) → Outcome (List A) → Outcome ProvisionConfig
with_list put (ok items) = ok (put items)
with_list put (raised e) = raised e
with_list put Outcome.crashed = Outcome.crashed

module _ (p : ProvisionConfig) where
  unfoldable pub add_file : File → Outcome ProvisionConfig
  unfolding add_item
  add_file new = with_list (λ l. record p { files = l }) (add_item file_eq p.files new)

  unfoldable pub remove_file : File → Outcome ProvisionConfig
  unfolding remove_item
  remove_file item = with_list (λ l. record p { files = l }) (remove_item file_eq p.files item)

  unfoldable pub add_mount : Mount → Outcome ProvisionConfig
  unfolding add_item
  add_mount new = with_list (λ l. record p { mounts = l }) (add_item mount_eq p.mounts new)

  unfoldable pub remove_mount : Mount → Outcome ProvisionConfig
  unfolding remove_item
  remove_mount item = with_list (λ l. record p { mounts = l }) (remove_item mount_eq p.mounts item)

  unfoldable pub add_link : Link → Outcome ProvisionConfig
  unfolding add_item
  add_link new = with_list (λ l. record p { links = l }) (add_item link_eq p.links new)

  unfoldable pub remove_link : Link → Outcome ProvisionConfig
  unfolding remove_item
  remove_link item = with_list (λ l. record p { links = l }) (remove_item link_eq p.links item)

-- The calls for the three kinds.
pub data Item : Type 0 where
  file : File → Item
  mount : Mount → Item
  link : Link → Item

unfoldable pub add : ProvisionConfig → Item → Outcome ProvisionConfig
unfolding add_file add_mount add_link
add p (file new) = add_file p new
add p (mount new) = add_mount p new
add p (link new) = add_link p new

unfoldable pub remove : ProvisionConfig → Item → Outcome ProvisionConfig
unfolding remove_file remove_mount remove_link
remove p (file item) = remove_file p item
remove p (mount item) = remove_mount p item
remove p (link item) = remove_link p item
