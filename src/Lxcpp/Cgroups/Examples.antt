-- ===== src/Lxcpp/Cgroups/Examples.antt =====
-- The search for the control group of a process (libs/lxcpp/cgroups/cgroup.cpp), with a concrete test of prefixes.
use vasum.Prelude.{
  ℕ, ◌≡◌, ◌≢◌, refl, ap, Bool, true, false, List, [], ◌∷◌, Text, lit, ◌==◌, some, nat_eq, All,
  get_or, arith, Bool-cases, inl, inr, if◌then◌else◌,
}
use vasum.Lxcpp.Cgroups.{get_cgroup}
use vasum.Lxcpp.Cgroups.First.{Entry, Begins, NoColon, IsEntry, get_cgroup-find_if}

abbrev starts : Text → Text → Bool
starts s [] = true
starts [] (p ∷ ps) = false
starts (c ∷ cs) (p ∷ ps) = let rest = starts cs ps in if nat_eq c p then rest else false

starts→Begins : (s prefix : Text) → starts s prefix ≡ true → Begins s prefix
starts→Begins s [] e = (s, refl)
starts→Begins [] (p ∷ ps) e = cc
starts→Begins (c ∷ cs) (p ∷ ps) e = elim (Bool-cases (nat_eq c p)) [
  | inl same ↦
      let (rest, below) = starts→Begins cs ps (rw same at e) in
      let eq : c ≡ p = ground (arith, same) in (rest, cc)
  | inr other ↦ cc (rw other at e)
]

Begins→starts : (s prefix : Text) → Begins s prefix → starts s prefix ≡ true
Begins→starts s [] b = refl
Begins→starts [] (p ∷ ps) (rest, e) = cc
Begins→starts (c ∷ cs) (p ∷ ps) (rest, e) =
    let below = Begins→starts cs ps (rest, cc) in
    let eq : c ≡ p = cc in
    let same : nat_eq c p ≡ true = ground (arith, eq) in rw (same, below) refl

abbrev entries : List Entry
entries =
    record { number = lit "4"; subsys = lit "cpu,cpuacct"; path = lit "/a" }
    ∷ record { number = lit "3"; subsys = lit "cpu"; path = lit "/b" }
    ∷ []

abbrev is_clean : Text → Bool
is_clean [] = true
is_clean (c ∷ cs) = let rest = is_clean cs in if nat_eq c b':' then false else rest

is_clean-NoColon : (t : Text) → is_clean t ≡ true → NoColon t
is_clean-NoColon [] e = tt
is_clean-NoColon (c ∷ cs) e = elim (Bool-cases (nat_eq c b':')) [
  | inl colon ↦ cc (rw colon at e)
  | inr other ↦ ((λ same. ground (arith, other, same)), is_clean-NoColon cs (rw other at e))
]

no_comment : (c : ℕ) (t : Text) → c ≢ b'#' → ¬ Begins (c ∷ t) (lit "#")
no_comment c t n (rest, e) = n (ap (λ l. get_or l 0 0) e)

entries-IsEntry : All IsEntry entries
entries-IsEntry = (
  (
    is_clean-NoColon (lit "4") refl,
    is_clean-NoColon (lit "cpu,cpuacct") refl,
    is_clean-NoColon (lit "/a") refl,
    no_comment b'4' _ (λ e. omega (arith, e)),
  ),
  (
    (
      is_clean-NoColon (lit "3") refl,
      is_clean-NoColon (lit "cpu") refl,
      is_clean-NoColon (lit "/b") refl,
      no_comment b'3' _ (λ e. omega (arith, e)),
    ),
    tt,
  ),
)

get_cgroup-find_if_example :
    get_cgroup starts (lit "cpu") (lit "4:cpu,cpuacct:/a" ∷ lit "3:cpu:/b" ∷ [])
    ≡ some (lit "cpu", lit "/b")
unfolding ◌==◌
get_cgroup-find_if_example =
    get_cgroup-find_if starts (λ s prefix. (starts→Begins s prefix, Begins→starts s prefix))
      (lit "cpu") entries (is_clean-NoColon (lit "cpu") refl) refl entries-IsEntry
