-- ===== src/Lxcpp/UserNamespace.antt =====
-- The user namespace's maps of ids (libs/lxcpp/userns-config.cpp). An entry maps `num` ids of the container, from
-- `cont_id` on, to as many ids of the host, from `host_id` on. The ids are 32-bit unsigned integers, and their arithmetic
-- wraps around.
pub mod Ranges
pub mod Injective
mod Examples
use vasum.Prelude.{
  ℕ, ◌+◌, ◌-◌, ◌%◌, ◌<◌, Bool, true, false, List, [], ◌∷◌, ◌++◌, Option, none, some, length,
  find_if, any, ltb, leb, if◌then◌else◌, ◌&&◌, ◌||◌,
}
use vasum.Prelude.Exec.{Outcome, ok, raised, configure}

pub record IdRange : Type 0 where
  pub cont_id : ℕ
  pub host_id : ℕ
  pub num : ℕ

pub record UserNsConfig : Type 0 where
  pub uid_maps : List IdRange
  pub gid_maps : List IdRange

-- The number of values of an unsigned int.
abbrev pub u32_mod : ℕ
u32_mod = 4294967296

-- (uid_t)-1
abbrev pub max_id : ℕ
max_id = 4294967295

-- min + size - 1
unfoldable pub range_max : ℕ → ℕ → ℕ
range_max min size = (min + size + max_id) % u32_mod

-- min <= id && id <= max
unfoldable pub is_between : ℕ → ℕ → ℕ → Bool
is_between min max id = leb min id && leb id max

unfoldable pub overlaps : ℕ → ℕ → IdRange → Bool
unfolding range_max is_between
overlaps cont_id host_id it =
    is_between it.cont_id (range_max it.cont_id it.num) cont_id
    || is_between it.host_id (range_max it.host_id it.num) host_id

-- `true` where the function throws nothing.
unfoldable pub is_map_correct : List IdRange → IdRange → Bool
unfolding overlaps
is_map_correct map new =
    if leb 5 (length map)
    then false
    else if ltb (max_id - new.num) new.cont_id || ltb (max_id - new.num) new.host_id
    then false
    else if any (overlaps new.cont_id new.host_id) map
    then false
    else true

unfoldable pub add_map : List IdRange → IdRange → Outcome (List IdRange)
unfolding is_map_correct
add_map map new = if is_map_correct map new then ok (map ++ new ∷ []) else raised configure

-- The predicate that the search is for.
unfoldable pub holds_id : ℕ → IdRange → Bool
unfolding range_max is_between
holds_id cont_id entry = is_between entry.cont_id (range_max entry.cont_id entry.num) cont_id

unfoldable pub host_id_in : ℕ → IdRange → ℕ
host_id_in cont_id it = (it.host_id + (cont_id + u32_mod - it.cont_id) % u32_mod) % u32_mod

unfoldable pub found_id : ℕ → Option IdRange → Outcome ℕ
unfolding host_id_in
found_id cont_id none = raised configure
found_id cont_id (some it) = ok (host_id_in cont_id it)

unfoldable pub conv_cont_to_host_id : List IdRange → ℕ → Outcome ℕ
unfolding found_id holds_id
conv_cont_to_host_id [] cont_id = ok cont_id
conv_cont_to_host_id (it ∷ map) cont_id = found_id cont_id (find_if (holds_id cont_id) (it ∷ map))
