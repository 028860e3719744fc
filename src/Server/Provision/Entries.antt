-- ===== src/Server/Provision/Entries.antt =====
-- Finding and erasing declarations by id, over lists whose ids are distinct (server/zone-provision.cpp).
use vasum.Prelude.{
  ◌≡◌, refl, ap, ◌∙◌, ◌⊎◌, inl, inr, true, false, List, [], ◌∷◌, ◌++◌, Text, ◌==◌, eq_iff, All,
  All-append, Any, arith, Bool-cases, if◌then◌else◌,
}
use vasum.Prelude.Exec.{provision_not_supported, ok, raised}
use vasum.Server.Provision.{Provision, file, mount, link, unset, get_id, find_id, erase_id}

-- The entry has the id.
abbrev pub HasId : Text → Provision → Type 0
HasId id p = get_id p ≡ ok id

-- No entry has the id.
abbrev pub NoneHas : Text → List Provision → Type 0
NoneHas id ps = All (λ p. ¬ HasId id p) ps

-- Every entry has an id, and no two have the same.
abbrev pub UniqueIds : List Provision → Type 0
UniqueIds [] = Unit {0}
UniqueIds (p ∷ ps) = ((id : Text) × HasId id p × NoneHas id ps) × UniqueIds ps

id_cases :
    (p : Provision) → ((id : Text) × HasId id p) ⊎ (get_id p ≡ raised provision_not_supported)
unfolding get_id
id_cases (file type path flags mode) = inl (_, refl)
id_cases (mount source target type flags options) = inl (_, refl)
id_cases (link source target) = inl (_, refl)
id_cases unset = inr refl

same_id : (i id : Text) (p : Provision) → HasId i p → HasId id p → i ≡ id
same_id i id p a b = cc

find_id-cons :
    (id i : Text) (p : Provision) (ps : List Provision)
    → HasId i p
    → find_id id (p ∷ ps) ≡ (if i == id then ok true else find_id id ps)
unfolding find_id
find_id-cons id i p ps e = rw (e, find_id)

find_id-unset :
    (id : Text) (p : Provision) (ps : List Provision)
    → get_id p ≡ raised provision_not_supported
    → find_id id (p ∷ ps) ≡ raised provision_not_supported
unfolding find_id
find_id-unset id p ps e = rw (e, find_id)

find_id_sound : (id : Text) (ps : List Provision) → find_id id ps ≡ ok true → Any (HasId id) ps
find_id_sound id [] e = unfold find_id in cc
find_id_sound id (p ∷ ps) e = elim (id_cases p) [
  | inr none_held ↦ cc (find_id-unset id p ps none_held)
  | inl (i, has) ↦ elim (Bool-cases (i == id)) [
    | inl same ↦ inl (has ∙ ap ok ((eq_iff i id).0 same))
    | inr other ↦ inr (find_id_sound id ps (ground (arith, find_id-cons id i p ps has)))
  ]
]

find_id-absent : (id : Text) (ps : List Provision) → find_id id ps ≡ ok false → NoneHas id ps
find_id-absent id [] e = tt
find_id-absent id (p ∷ ps) e = elim (id_cases p) [
  | inr none_held ↦ cc (find_id-unset id p ps none_held)
  | inl (i, has) ↦ elim (Bool-cases (i == id)) [
    | inl same ↦ cc (find_id-cons id i p ps has)
    | inr other ↦ (
      λ h. cc ((eq_iff i id).1 (same_id i id p has h)),
      find_id-absent id ps (ground (arith, find_id-cons id i p ps has)),
    )
  ]
]

pub find_id-present :
    (id : Text) (ps : List Provision) → UniqueIds ps → Any (HasId id) ps → find_id id ps ≡ ok true
find_id-present id [] u a = elim a [ ]
find_id-present id (p ∷ ps) u (inl h) = rw (find_id-cons id id p ps h) (rw ((eq_iff id id).1 refl))
find_id-present id (p ∷ ps) u (inr a) =
    ground (arith, find_id-cons id (u.0).0 p ps (u.0).1, find_id-present id ps u.1 a)

pub find_id-missing :
    (id : Text) (ps : List Provision) → UniqueIds ps → NoneHas id ps → find_id id ps ≡ ok false
find_id-missing id [] u n = unfold find_id in refl
find_id-missing id (p ∷ ps) u n = elim (Bool-cases ((u.0).0 == id)) [
  | inl same ↦ absurd (n.0 ((u.0).1 ∙ ap ok ((eq_iff (u.0).0 id).0 same)))
  | inr other ↦ rw (find_id-cons id (u.0).0 p ps (u.0).1, other) (find_id-missing id ps u.1 n.1)
]

erase_id-cons :
    (id i : Text) (p : Provision) (ps : List Provision)
    → HasId i p
    → erase_id id (p ∷ ps) ≡ (if i == id then ps else p ∷ erase_id id ps)
unfolding erase_id
erase_id-cons id i p ps e = rw (e, erase_id)

pub find_id-append :
    (id : Text) (ps : List Provision) (p : Provision)
    → UniqueIds ps
    → HasId id p
    → find_id id (ps ++ p ∷ []) ≡ ok true
find_id-append id [] p u h = rw (find_id-cons id id p [] h) (rw ((eq_iff id id).1 refl))
find_id-append id (q ∷ qs) p u h =
    ground (arith, find_id-cons id (u.0).0 q (qs ++ p ∷ []) (u.0).1, find_id-append id qs p u.1 h)

pub erase_id-append :
    (id : Text) (ps : List Provision) (p : Provision)
    → UniqueIds ps
    → NoneHas id ps
    → HasId id p
    → erase_id id (ps ++ p ∷ []) ≡ ps
erase_id-append id [] p u n h = rw (erase_id-cons id id p [] h) (rw ((eq_iff id id).1 refl))
erase_id-append id (q ∷ qs) p u n h = elim (Bool-cases ((u.0).0 == id)) [
  | inl same ↦ absurd (n.0 ((u.0).1 ∙ ap ok ((eq_iff (u.0).0 id).0 same)))
  | inr other ↦
      rw (erase_id-cons id (u.0).0 q (qs ++ p ∷ []) (u.0).1, other)
        (ap (◌∷◌ q) (erase_id-append id qs p u.1 n.1 h))
]

NoneHas-append :
    (id : Text) (ps : List Provision) (p : Provision)
    → NoneHas id ps
    → ¬ HasId id p
    → NoneHas id (ps ++ p ∷ [])
NoneHas-append id ps p n h = All-append (λ q. ¬ HasId id q) ps (p ∷ []) n (h, tt)

pub UniqueIds-append :
    (id : Text) (ps : List Provision) (p : Provision)
    → UniqueIds ps
    → NoneHas id ps
    → HasId id p
    → UniqueIds (ps ++ p ∷ [])
UniqueIds-append id [] p u n h = ((id, h, tt), tt)
UniqueIds-append id (q ∷ qs) p u n h = (
  (
    (u.0).0,
    (u.0).1,
    NoneHas-append (u.0).0 qs p (u.0).2 (λ e. n.0 ((u.0).1 ∙ ap ok (same_id (u.0).0 id p e h))),
  ),
  UniqueIds-append id qs p u.1 n.1 h,
)

NoneHas-erase :
    (id item : Text) (ps : List Provision)
    → UniqueIds ps
    → NoneHas id ps
    → NoneHas id (erase_id item ps)
NoneHas-erase id item [] u n = unfold erase_id in tt
NoneHas-erase id item (p ∷ ps) u n = elim (Bool-cases ((u.0).0 == item)) [
  | inl same ↦ rw (erase_id-cons item (u.0).0 p ps (u.0).1, same) n.1
  | inr other ↦
      rw (erase_id-cons item (u.0).0 p ps (u.0).1, other) (n.0, NoneHas-erase id item ps u.1 n.1)
]

-- Removing keeps the ids apart.
pub UniqueIds-erase :
    (item : Text) (ps : List Provision) → UniqueIds ps → UniqueIds (erase_id item ps)
UniqueIds-erase item [] u = unfold erase_id in tt
UniqueIds-erase item (p ∷ ps) u = elim (Bool-cases ((u.0).0 == item)) [
  | inl same ↦ rw (erase_id-cons item (u.0).0 p ps (u.0).1, same) u.1
  | inr other ↦
      rw (erase_id-cons item (u.0).0 p ps (u.0).1, other)
        (((u.0).0, (u.0).1, NoneHas-erase (u.0).0 item ps u.1 (u.0).2), UniqueIds-erase item ps u.1)
]

pub Any-map :
    {P Q : Provision → Type 0} (f : (p : Provision) → P p → Q p) (ps : List Provision)
    → Any P ps
    → Any Q ps
Any-map f [] a = a
Any-map f (p ∷ ps) (inl a) = inl (f p a)
Any-map f (p ∷ ps) (inr a) = inr (Any-map f ps a)

pub Any-NoneHas : (id : Text) (ps : List Provision) → NoneHas id ps → ¬ Any (HasId id) ps
Any-NoneHas id [] n a = a
Any-NoneHas id (p ∷ ps) n (inl a) = n.0 a
Any-NoneHas id (p ∷ ps) n (inr a) = Any-NoneHas id ps n.1 a

pub find-cases :
    (id : Text) (ps : List Provision)
    → UniqueIds ps
    → ((find_id id ps ≡ ok true) × Any (HasId id) ps) ⊎ ((find_id id ps ≡ ok false) × NoneHas id ps)
find-cases id [] u = inr (unfold find_id in refl, tt)
find-cases id (p ∷ ps) u = elim (Bool-cases ((u.0).0 == id)) [
  | inl same ↦
      let has : HasId id p = (u.0).1 ∙ ap ok ((eq_iff (u.0).0 id).0 same) in
      inl (find_id-present id (p ∷ ps) u (inl has), inl has)
  | inr other ↦ elim (find-cases id ps u.1) [
    | inl (e, a) ↦ inl (find_id-present id (p ∷ ps) u (inr a), inr a)
    | inr (e, n) ↦
        let miss : ¬ HasId id p =
          λ g. cc ((eq_iff (u.0).0 id).1 (same_id (u.0).0 id p (u.0).1 g)) in
        inr (find_id-missing id (p ∷ ps) u (miss, n), (miss, n))
  ]
]
