-- ===== src/Lxcpp/UserNamespace/Ranges.antt =====
-- What UserNSConfig accepts as a map, and what it then makes of an id (libs/lxcpp/userns-config.cpp).
use vasum.Prelude.{
  ℕ, ◌+◌, ◌≤◌, ◌<◌, ◌≡◌, ◌⊎◌, inl, inr, refl, true, false, List, [], ◌∷◌, find_if, any, All, Any,
  arith, Bool-cases,
}
use vasum.Prelude.Exec.{ok, raised, configure}
use vasum.Lxcpp.UserNamespace.{
  IdRange, max_id, overlaps, is_map_correct, holds_id, host_id_in, found_id, conv_cont_to_host_id,
}

-- A range of one id at least whose end is a 32-bit number on both sides.
pub record IsRange (r : IdRange) : Type 0 where
  pub some_id : 0 < r.num
  pub cont_end : r.cont_id + r.num ≤ max_id
  pub host_end : r.host_id + r.num ≤ max_id

abbrev pub InCont : IdRange → ℕ → Type 0
InCont r c = (r.cont_id ≤ c) × (c < r.cont_id + r.num)

abbrev pub InHost : IdRange → ℕ → Type 0
InHost r h = (r.host_id ≤ h) × (h < r.host_id + r.num)

-- The range maps the id `c` of the container to the id `h` of the host.
abbrev pub MapsTo : ℕ → ℕ → IdRange → Type 0
MapsTo c h r = InCont r c × (h + r.cont_id ≡ r.host_id + c)

pub holds_id→InCont : (c : ℕ) (r : IdRange) → IsRange r → holds_id c r ≡ true → InCont r c
unfolding holds_id
holds_id→InCont c r v h = ground arith

pub InCont→holds_id : (c : ℕ) (r : IdRange) → IsRange r → InCont r c → holds_id c r ≡ true
unfolding holds_id
InCont→holds_id c r v h = ground arith

pub host_id_in-MapsTo : (c : ℕ) (r : IdRange) → IsRange r → InCont r c → MapsTo c (host_id_in c r) r
unfolding host_id_in
host_id_in-MapsTo c r v h = (h, omega (arith, v.cont_end, v.host_end))

found_cases :
    (c : ℕ) (map : List IdRange)
    → All IsRange map
    → ((h : ℕ) × (found_id c (find_if (holds_id c) map) ≡ ok h) × Any (MapsTo c h) map)
      ⊎ ((found_id c (find_if (holds_id c) map) ≡ raised configure) × All (λ r. ¬ InCont r c) map)
unfolding found_id
found_cases c [] v = inr (refl, tt)
found_cases c (r ∷ map) v = elim (Bool-cases (holds_id c r)) [
  | inl yes' ↦
      inl (
        host_id_in c r,
        rw yes' refl,
        inl (host_id_in-MapsTo c r v.0 (holds_id→InCont c r v.0 yes')),
      )
  | inr no' ↦ rw no' (elim (found_cases c map v.1) [
    | inl (h, e, a) ↦ inl (h, e, inr a)
    | inr (e, a) ↦ inr (e, ((λ i. cc (no', InCont→holds_id c r v.0 i)), a))
  ])
]

-- A map of ranges: an id within one of them goes to the same place within the host's side of one, and any other id is
-- refused. An empty map changes no id.
pub conv_cont_to_host_id_cases :
    (map : List IdRange) (c : ℕ)
    → All IsRange map
    → ((map ≡ []) × (conv_cont_to_host_id map c ≡ ok c))
      ⊎ ((h : ℕ) × (conv_cont_to_host_id map c ≡ ok h) × Any (MapsTo c h) map)
      ⊎ ((conv_cont_to_host_id map c ≡ raised configure) × All (λ r. ¬ InCont r c) map)
unfolding conv_cont_to_host_id
conv_cont_to_host_id_cases [] c v = inl (refl, refl)
conv_cont_to_host_id_cases (r ∷ map) c v = inr (found_cases c (r ∷ map) v)

-- An accepted range ends at a 32-bit number, unless it is empty, which is not asked for.
pub accepted-IsRange :
    (map : List IdRange) (r : IdRange)
    → 0 < r.num
    → r.num ≤ max_id
    → is_map_correct map r ≡ true
    → IsRange r
unfolding is_map_correct
accepted-IsRange map r n m h = ground arith

-- The start of the new range lies in no range of the map.
abbrev pub StartsOutside : IdRange → IdRange → Type 0
StartsOutside new r = (¬ InCont r new.cont_id) × (¬ InHost r new.host_id)

pub no_overlap :
    (new : IdRange) (map : List IdRange)
    → All IsRange map
    → any (overlaps new.cont_id new.host_id) map ≡ false
    → All (StartsOutside new) map
unfolding overlaps
no_overlap new [] v h = tt
no_overlap new (r ∷ map) v h = elim (Bool-cases (overlaps new.cont_id new.host_id r)) [
  | inl yes' ↦ cc (rw yes' at h)
  | inr no' ↦ (((λ i. ground arith), (λ i. ground arith)), no_overlap new map v.1 (rw no' at h))
]
