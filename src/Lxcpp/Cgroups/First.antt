-- ===== src/Lxcpp/Cgroups/First.antt =====
-- What the search for the control group of a process (libs/lxcpp/cgroups/cgroup.cpp) finds in well-formed lines.
use mathlib.Core.List.{append_assoc}
use vasum.Prelude.{
  ℕ, ◌≡◌, ◌≢◌, refl, sym, ap, ◌∙◌, ◌↔◌, Bool, true, false, List, [], ◌∷◌, ◌++◌, Text, lit, ◌==◌,
  eq_iff, Option, none, some, is_empty, nat_eq, All, map, find_if, arith, Bool-cases, inl, inr,
}
use vasum.Lxcpp.Cgroups.{
  get_subsys_name, get_cgroup_name, new_cgroup, split_at_colon, getline, entry_of, get_cgroups,
  first_of, get_cgroup,
}

abbrev pub NoColon : Text → Type 0
NoColon t = All (λ c. c ≢ b':') t

-- The fields of a line: the number of the hierarchy, its subsystem, and the path of the group.
pub record Entry : Type 0 where
  pub number : Text
  pub subsys : Text
  pub path : Text

abbrev pub line_of : Entry → Text
line_of e = e.number ++ (lit ":" ++ (e.subsys ++ (lit ":" ++ e.path)))

-- What getCGroups makes of the line.
abbrev pub pair_of : Entry → Text
pair_of e = e.subsys ++ (lit ":" ++ e.path)

-- The text starts with the prefix.
abbrev pub Begins : Text → Text → Type 0
Begins s prefix = (rest : Text) × (s ≡ prefix ++ rest)

-- No field has a colon, and the line is no comment.
abbrev pub IsEntry : Entry → Type 0
IsEntry e = NoColon e.number × NoColon e.subsys × NoColon e.path × (¬ Begins (line_of e) (lit "#"))

nat_ne : (a b : ℕ) → a ≢ b → nat_eq a b ≡ false
nat_ne a b n = ground (arith, n)

split_at_colon-append : (n r : Text) → NoColon n → split_at_colon (n ++ b':' ∷ r) ≡ (n, some r)
unfolding split_at_colon
split_at_colon-append [] r h = refl
split_at_colon-append (c ∷ cs) r h = rw (nat_ne c b':' h.0, split_at_colon-append cs r h.1) refl

split_at_colon-all : (p : Text) → NoColon p → split_at_colon p ≡ (p, none)
unfolding split_at_colon
split_at_colon-all [] h = refl
split_at_colon-all (c ∷ cs) h = rw (nat_ne c b':' h.0, split_at_colon-all cs h.1) refl

entry_of-line_of : (e : Entry) → IsEntry e → entry_of (line_of e) ≡ e.subsys ++ (lit ":" ++ e.path)
unfolding entry_of getline
entry_of-line_of e h =
    rw
      (
        split_at_colon-append e.number (e.subsys ++ (lit ":" ++ e.path)) h.0,
        split_at_colon-append e.subsys e.path h.1,
        split_at_colon-all e.path h.2,
      )
      refl

get_subsys_name-append : (n p : Text) → NoColon n → get_subsys_name (n ++ b':' ∷ p) ≡ some n
unfolding get_subsys_name
get_subsys_name-append [] p h = refl
get_subsys_name-append (c ∷ cs) p h = rw (nat_ne c b':' h.0, get_subsys_name-append cs p h.1) refl

get_cgroup_name-append : (n p : Text) → NoColon n → get_cgroup_name (n ++ b':' ∷ p) ≡ some p
unfolding get_cgroup_name
get_cgroup_name-append [] p h = refl
get_cgroup_name-append (c ∷ cs) p h = rw (nat_ne c b':' h.0, get_cgroup_name-append cs p h.1) refl

new_cgroup-append :
    (n p : Text) → NoColon n → is_empty n ≡ false → new_cgroup (n ++ b':' ∷ p) ≡ some (n, p)
unfolding new_cgroup
new_cgroup-append n p h full =
    rw (get_subsys_name-append n p h, get_cgroup_name-append n p h, full) refl

-- Of two names without a colon, each with a colon behind it, one starts with the other only if they are the same.
Begins-same :
    (n p subsys : Text)
    → NoColon n
    → NoColon subsys
    → Begins (n ++ b':' ∷ p) (subsys ++ b':' ∷ [])
    → n ≡ subsys
Begins-same n p subsys hn hs (rest, e) =
    let whole : n ++ b':' ∷ p ≡ subsys ++ b':' ∷ rest = e ∙ append_assoc subsys (b':' ∷ []) rest in
    cc (
      sym (get_subsys_name-append n p hn)
      ∙ ap get_subsys_name whole
      ∙ get_subsys_name-append subsys rest hs)

-- The subsystem and the path of an entry, where one is found.
abbrev pub group_of : Option Entry → Option (Text × Text)
group_of none = none
group_of (some e) = some (e.subsys, e.path)

module _ (begins_with : Text → Text → Bool)
    (begins : (s prefix : Text) → (begins_with s prefix ≡ true) ↔ Begins s prefix) where
  missed_prefix : (s prefix : Text) → ¬ Begins s prefix → begins_with s prefix ≡ false
  missed_prefix s prefix n = elim (Bool-cases (begins_with s prefix)) [
    | inl found ↦ absurd (n ((begins s prefix).0 found))
    | inr missed ↦ missed
  ]

  get_cgroups-map :
      (entries : List Entry)
      → All IsEntry entries
      → get_cgroups begins_with (map line_of entries) ≡ map pair_of entries
  unfolding get_cgroups
  get_cgroups-map [] all = refl
  get_cgroups-map (e ∷ es) all =
      rw
        (
          missed_prefix (line_of e) (lit "#") all.0.3,
          entry_of-line_of e all.0,
          get_cgroups-map es all.1,
        )
        refl

  first_of-find_if :
      (subsys : Text) (entries : List Entry)
      → NoColon subsys
      → is_empty subsys ≡ false
      → All IsEntry entries
      → first_of begins_with subsys (map pair_of entries)
        ≡ group_of (find_if (λ e. e.subsys == subsys) entries)
  unfolding first_of
  first_of-find_if subsys [] clean full all = refl
  first_of-find_if subsys (e ∷ es) clean full all = elim (Bool-cases (e.subsys == subsys)) [
    | inl same ↦
        let eq : e.subsys ≡ subsys = (eq_iff e.subsys subsys).0 same in
        let starts : begins_with (pair_of e) (subsys ++ lit ":") ≡ true =
          (begins _ _).1 (
            e.path,
            ap (λ n. n ++ b':' ∷ e.path) eq ∙ sym (append_assoc subsys (lit ":") e.path),
          ) in
        rw (same, starts, new_cgroup-append e.subsys e.path all.0.1 (ap is_empty eq ∙ full)) refl
    | inr other ↦
        let misses : begins_with (pair_of e) (subsys ++ lit ":") ≡ false = missed_prefix _ _ (λ b.
          cc ((eq_iff e.subsys subsys).1 (Begins-same e.subsys e.path subsys all.0.1 clean b))) in
        rw (other, misses, first_of-find_if subsys es clean full all.1) refl
  ]

  -- Over lines whose three fields have no colon and that are no comments, and for a subsystem whose name is not empty and
  -- has no colon, where `begins_with` tells whether a text starts with another: the group that is found is that of the
  -- first line of that very subsystem, with the path of that line, and without such a line there is an exception.
  pub get_cgroup-find_if :
      (subsys : Text) (entries : List Entry)
      → NoColon subsys
      → is_empty subsys ≡ false
      → All IsEntry entries
      → get_cgroup begins_with subsys (map line_of entries)
        ≡ group_of (find_if (λ e. e.subsys == subsys) entries)
  unfolding get_cgroup
  get_cgroup-find_if subsys entries clean full all =
      rw (get_cgroups-map entries all) (first_of-find_if subsys entries clean full all)
