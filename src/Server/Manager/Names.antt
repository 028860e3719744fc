-- ===== src/Server/Manager/Names.antt =====
-- The names of zones that server/zones-manager.cpp accepts, and the clean-up of the zones' directory.
pub mod CleanUp
mod Examples
use vasum.Prelude.{
  ℕ, Bool, true, false, ◌&&◌, ◌||◌, List, [], ◌∷◌, ◌++◌, Text, lit, ◌==◌, leb, nat_eq, not, any,
  if◌then◌else◌,
}
use vasum.Prelude.Exec.{Exec, pure, when, ◌>>=◌, ◌>>◌}
use vasum.Server.Host.{Host}
use vasum.Server.Manager.{enabled_file_name}

abbrev pub prohibited_zones_names : List Text
prohibited_zones_names = enabled_file_name ∷ lit "lxc-monitord.log" ∷ []

-- std::isalnum in the C locale
unfoldable pub is_alnum_byte : ℕ → Bool
is_alnum_byte c = leb b'0' c && leb c b'9' || (leb b'A' c && leb c b'Z' || leb b'a' c && leb c b'z')

unfoldable pub is_alnum : Text → Bool
unfolding is_alnum_byte
is_alnum [] = true
is_alnum (c ∷ cs) = if is_alnum_byte c then is_alnum cs else false

unfoldable pub is_prohibited : Text → Bool
is_prohibited id = any (λ name. name == id) prohibited_zones_names

abbrev starts_with_dot : Text → Bool
starts_with_dot [] = false
starts_with_dot (c ∷ cs) = nat_eq c b'.'

pub is_known : List Text → Text → Bool
is_known ids name = any (λ known. known == name) (ids ++ prohibited_zones_names)

module _ {W : Type 0} (h : Host W) (zones_path : Text) where
  -- The first loop of cleanUpUnknownsFromRoot: names that start with a dot go.
  remove_hidden : Bool → List Text → Exec W (Unit {0})
  remove_hidden dry_run [] = pure tt
  remove_hidden dry_run (name ∷ names) = do
    when (starts_with_dot name && not dry_run) (h.remove_all zones_path name)
    remove_hidden dry_run names

  -- The second loop: names that are not known are hidden, and then go.
  remove_unknown : Bool → List Text → List Text → Exec W (Unit {0})
  unfolding is_known
  remove_unknown dry_run ids [] = pure tt
  remove_unknown dry_run ids (name ∷ names) = do
    when (not (is_known ids name) && not dry_run)
        do h.rename zones_path name (lit "." ++ name); h.remove_all zones_path (lit "." ++ name)
    remove_unknown dry_run ids names

  -- A directory is listed once for each loop.
  unfoldable pub clean_up_unknowns_from_root : List Text → Bool → Exec W (Unit {0})
  unfolding remove_hidden remove_unknown
  clean_up_unknowns_from_root ids dry_run = do
    entries ← h.list_directory zones_path
    remove_hidden dry_run entries
    left ← h.list_directory zones_path
    remove_unknown dry_run ids left
