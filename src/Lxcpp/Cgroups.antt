-- ===== src/Lxcpp/Cgroups.antt =====
-- The control group of a process (libs/lxcpp/cgroups/cgroup.cpp, libs/lxcpp/cgroups/subsystem.cpp), from the lines of
-- /proc/<pid>/cgroup. `none` is a CGroupException. `begins_with` is utils::beginsWith, and the search for the mount point
-- of a subsystem is left out.
pub mod First
mod Examples
use vasum.Prelude.{
  Bool, true, false, List, [], ◌∷◌, ◌++◌, Text, lit, Option, none, some, is_empty, nat_eq,
  if◌then◌else◌,
}

-- std::string::find(':'), and substr up to it and behind it.
pub get_subsys_name : Text → Option Text
get_subsys_name [] = none
get_subsys_name (c ∷ cs) =
    let rest = get_subsys_name cs in
    if nat_eq c b':' then some [] else elim rest [ none ↦ none | some name ↦ some (c ∷ name) ]

pub get_cgroup_name : Text → Option Text
get_cgroup_name [] = none
get_cgroup_name (c ∷ cs) = let rest = get_cgroup_name cs in if nat_eq c b':' then some cs else rest

abbrev named : Option Text → Option Text → Option (Text × Text)
named none name = none
named (some subsys) none = none
named (some subsys) (some name) = if is_empty subsys then none else some (subsys, name)

-- CGroup::CGroup: the subsystem, whose name must not be empty, and the name of the group.
pub new_cgroup : Text → Option (Text × Text)
unfolding get_subsys_name get_cgroup_name
new_cgroup s = named (get_subsys_name s) (get_cgroup_name s)

-- The text up to the first colon, and the rest behind it, which is `none` at the end of the stream.
split_at_colon : Text → Text × Option Text
split_at_colon [] = ([], none)
split_at_colon (c ∷ cs) =
    let rest = split_at_colon cs in if nat_eq c b':' then ([], some cs) else (c ∷ rest.0, rest.1)

-- std::getline(iss, n, ':'): at the end of the stream, `n` stays as it is.
getline : Option Text → Text → Text × Option Text
unfolding split_at_colon
getline none n = (n, none)
getline (some s) n = split_at_colon s

-- The second and the third field of a line.
pub entry_of : Text → Text
unfolding getline
entry_of line =
    let (ignored, after_first) = getline (some line) [] in
    let (n, after_second) = getline after_first ignored in
    let (p, after_third) = getline after_second [] in n ++ (lit ":" ++ p)

module _ (begins_with : Text → Text → Bool) where
  -- Subsystem::getCGroups, over the lines of the file.
  pub get_cgroups : List Text → List Text
  unfolding entry_of
  get_cgroups [] = []
  get_cgroups (line ∷ lines) =
      let rest = get_cgroups lines in
      if begins_with line (lit "#") then rest else entry_of line ∷ rest

  -- The loop of CGroup::getCGroup.
  pub first_of : Text → List Text → Option (Text × Text)
  unfolding new_cgroup
  first_of subsys [] = none
  first_of subsys (i ∷ is) =
      let rest = first_of subsys is in
      if begins_with i (subsys ++ lit ":") then new_cgroup i else rest

  pub get_cgroup : Text → List Text → Option (Text × Text)
  unfolding get_cgroups first_of
  get_cgroup subsys lines = first_of subsys (get_cgroups lines)
