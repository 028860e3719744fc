-- ===== src/Server/Provision/Links.antt =====
-- Which hard links server/zone-provision.cpp makes: those whose normalised source starts with a valid prefix.
use vasum.Prelude.{
  ℕ, zero, suc, ◌≤◌, ◌≡◌, refl, ap, ◌⊎◌, inl, inr, true, List, [], ◌∷◌, ◌++◌, Text, ◌==◌, eq_iff,
  Any, arith, length, Bool-cases,
}
use vasum.Prelude.Exec.{utils, throw}
use vasum.Server.Provision.{ProvisionHost, take, has_prefix, provide_link}

-- The text starts with the prefix.
abbrev pub StartsWith : Text → Text → Type 0
StartsWith s prefix = (rest : Text) × (s ≡ prefix ++ rest)

take_all : (p : Text) (rest : Text) → take (length p) (p ++ rest) ≡ p
take_all [] rest = refl
take_all (c ∷ cs) rest = ap (◌∷◌ c) (take_all cs rest)

take_rest : (n : ℕ) (s : Text) → StartsWith s (take n s)
take_rest zero s = (s, refl)
take_rest (suc n) [] = ([], refl)
take_rest (suc n) (c ∷ cs) = let (rest, e) = take_rest n cs in (rest, ap (◌∷◌ c) e)

length-le-append : (p rest : Text) → length p ≤ length (p ++ rest)
length-le-append [] rest = omega arith
length-le-append (c ∷ cs) rest = omega (arith, length-le-append cs rest)

has_prefix_sound : (s p : Text) → has_prefix s p ≡ true → StartsWith s p
unfolding has_prefix
has_prefix_sound s p e =
    let same : take (length p) s ≡ p = (eq_iff (take (length p) s) p).0 (ground arith) in
    rw same at (take_rest (length p) s)

has_prefix_complete : (s p : Text) → StartsWith s p → has_prefix s p ≡ true
unfolding has_prefix
has_prefix_complete s p (rest, e) =
    let fits : length p ≤ length s = rw e (length-le-append p rest) in
    let same : take (length p) s == p ≡ true = (eq_iff _ _).1 (rw e (take_all p rest)) in
    ground arith

module _ {W : Type 0} (h : ProvisionHost W) (root source target : Text) where
  link_made :
      (prefixes : List Text)
      → Any (StartsWith (h.normalize source)) prefixes
      → provide_link h prefixes root source target
        ≡ h.create_link (h.normalize source) (h.join_path root target)
  unfolding provide_link
  link_made [] a = elim a [ ]
  link_made (p ∷ ps) (inl a) = rw (has_prefix_complete (h.normalize source) p a)
  link_made (p ∷ ps) (inr a) = elim (Bool-cases (has_prefix (h.normalize source) p)) [
    | inl e ↦ rw e
    | inr e ↦ rw e (link_made ps a)
  ]

  link_refused :
      (prefixes : List Text)
      → ¬ Any (StartsWith (h.normalize source)) prefixes
      → provide_link h prefixes root source target ≡ throw utils
  unfolding provide_link
  link_refused [] n = refl
  link_refused (p ∷ ps) n = elim (Bool-cases (has_prefix (h.normalize source) p)) [
    | inl e ↦ absurd (n (inl (has_prefix_sound (h.normalize source) p e)))
    | inr e ↦ rw e (link_refused ps (λ a. n (inr a)))
  ]

StartsWith-cases :
    (s : Text) (prefixes : List Text)
    → Any (StartsWith s) prefixes ⊎ (¬ Any (StartsWith s) prefixes)
StartsWith-cases s [] = inr (λ a. a)
StartsWith-cases s (p ∷ ps) = elim (Bool-cases (has_prefix s p)) [
  | inl e ↦ inl (inl (has_prefix_sound s p e))
  | inr e ↦ elim (StartsWith-cases s ps) [
    | inl a ↦ inl (inr a)
    | inr n ↦ inr λ a. elim a [ inl x ↦ cc (has_prefix_complete s p x) | inr y ↦ n y ]
  ]
]

-- A declared link, by whether the normalised source starts with one of the valid prefixes. Where it does, the call is the
-- one that creates the link from the normalised source; where it does not, the call throws and the world stays as it is.
pub provide_link_cases :
    {W : Type 0} (h : ProvisionHost W) (prefixes : List Text) (root source target : Text)
    → (Any (StartsWith (h.normalize source)) prefixes
        × (provide_link h prefixes root source target
            ≡ h.create_link (h.normalize source) (h.join_path root target)))
      ⊎ ((¬ Any (StartsWith (h.normalize source)) prefixes)
          × (provide_link h prefixes root source target ≡ throw utils))
provide_link_cases h prefixes root source target =
    elim (StartsWith-cases (h.normalize source) prefixes) [
      | inl a ↦ inl (a, link_made h root source target prefixes a)
      | inr n ↦ inr (n, link_refused h root source target prefixes n)
    ]
