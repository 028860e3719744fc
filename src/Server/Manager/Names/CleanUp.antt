-- ===== src/Server/Manager/Names/CleanUp.antt =====
-- What cleanUpUnknownsFromRoot of server/zones-manager.cpp touches in the zones' path.
use vasum.Prelude.{
  ◌≡◌, refl, ◌⊎◌, inl, inr, Bool, true, false, ◌&&◌, List, [], ◌∷◌, ◌++◌, Text, lit, ◌==◌, eq_iff,
  Any, any, not, Bool-cases,
}
use vasum.Prelude.Exec.{Exec, when, ◌>>◌}
use vasum.Prelude.Keeps.{Keeps, Keeps-pure, Keeps-bind, Keeps-when}
use vasum.Server.Host.{Host}
use vasum.Server.Manager.Names.{
  starts_with_dot, prohibited_zones_names, is_known, remove_hidden, remove_unknown,
  clean_up_unknowns_from_root,
}

-- The name is one of the ids, or reserved.
abbrev pub Known : List Text → Text → Type 0
Known ids name = Any (λ known. known ≡ name) (ids ++ prohibited_zones_names)

Any-any :
    (names : List Text) (name : Text)
    → any (λ known. known == name) names ≡ false
    → ¬ Any (λ known. known ≡ name) names
Any-any [] name e a = a
Any-any (n ∷ ns) name e a = elim (Bool-cases (n == name)) [
  | inl same ↦ cc (rw same at e)
  | inr other ↦ elim a [
    | inl here ↦ cc ((eq_iff n name).1 here)
    | inr there ↦ Any-any ns name (rw other at e) there
  ]
]

Keeps-skipped : {W : Type 0} (P : W → Type 0) (m : Exec W (Unit {0})) → Keeps P (when false m)
unfolding when
Keeps-skipped P m = record { after = λ s p. p }

module _ {W : Type 0} (h : Host W) (path : Text) (P : W → Type 0) (ids : List Text)
    (lists : Keeps P (h.list_directory path))
    (removes : (name : Text) → starts_with_dot name ≡ true → Keeps P (h.remove_all path name))
    (hides : (name : Text)
      → ¬ Known ids name
      → Keeps P (h.rename path name (lit "." ++ name))) where
  only_hidden :
      (dry_run : Bool) (name : Text)
      → (starts_with_dot name ≡ true) ⊎ (starts_with_dot name ≡ false)
      → Keeps P (when (starts_with_dot name && not dry_run) (h.remove_all path name))
  only_hidden dry_run name (inl dot) = Keeps-when _ _ (removes name dot)
  only_hidden dry_run name (inr no_dot) = rw no_dot (Keeps-skipped P _)

  hidden-Keeps : (dry_run : Bool) (names : List Text) → Keeps P (remove_hidden h path dry_run names)
  unfolding remove_hidden
  hidden-Keeps dry_run [] = Keeps-pure tt
  hidden-Keeps dry_run (name ∷ names) =
      Keeps-bind _ _ (only_hidden dry_run name (Bool-cases (starts_with_dot name)))
        (λ _. hidden-Keeps dry_run names)

  only_unknown :
      (dry_run : Bool) (name : Text)
      → (is_known ids name ≡ true) ⊎ (is_known ids name ≡ false)
      → Keeps P (
          when
            (not (is_known ids name) && not dry_run)
            (h.rename path name (lit "." ++ name) >> h.remove_all path (lit "." ++ name)))
  unfolding is_known
  only_unknown dry_run name (inl known) = rw known (Keeps-skipped P _)
  only_unknown dry_run name (inr unknown) = Keeps-when _ _ (
      Keeps-bind _ _ (hides name (Any-any (ids ++ prohibited_zones_names) name unknown))
        (λ _. removes (lit "." ++ name) refl))

  unknown-Keeps :
      (dry_run : Bool) (names : List Text) → Keeps P (remove_unknown h path dry_run ids names)
  unfolding remove_unknown
  unknown-Keeps dry_run [] = Keeps-pure tt
  unknown-Keeps dry_run (name ∷ names) =
      Keeps-bind _ _ (only_unknown dry_run name (Bool-cases (is_known ids name)))
        (λ _. unknown-Keeps dry_run names)

  clean_up-Keeps : (dry_run : Bool) → Keeps P (clean_up_unknowns_from_root h path ids dry_run)
  unfolding clean_up_unknowns_from_root
  clean_up-Keeps dry_run = Keeps-bind _ _ lists (λ entries.
      Keeps-bind _ _ (hidden-Keeps dry_run entries)
        (λ _. Keeps-bind _ _ lists (λ left. unknown-Keeps dry_run left)))

-- The clean-up removes only what has a name with a dot in front, and hides (by a dot in front of the name) only what is
-- neither the directory of one of the ids nor reserved: what is true of the world, and stays true over listing the
-- directory, over every removal of a name with a dot in front, and over hiding every such unknown name, is true after the
-- clean-up, however it ends.
pub clean_up_unknowns_from_root-Known :
    {W : Type 0} (h : Host W) (path : Text) (P : W → Type 0) (ids : List Text) (dry_run : Bool)
    (w : W)
    → Keeps P (h.list_directory path)
    → ((name : Text) → starts_with_dot name ≡ true → Keeps P (h.remove_all path name))
    → ((name : Text) → ¬ Known ids name → Keeps P (h.rename path name (lit "." ++ name)))
    → P w
    → P (clean_up_unknowns_from_root h path ids dry_run w).1
clean_up_unknowns_from_root-Known h path P ids dry_run w lists removes hides p =
    (clean_up-Keeps h path P ids lists removes hides dry_run).after w p
