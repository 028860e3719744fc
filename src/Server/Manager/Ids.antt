-- ===== src/Server/Manager/Ids.antt =====
-- The ids of the zones of the manager (server/zones-manager.cpp) as a list of texts: what the loops over the zones do to
-- them.
use mathlib.Core.Path.{subst}
use vasum.Prelude.{
  ◌≡◌, refl, sym, ap, false, remove_if, List, [], ◌∷◌, ◌++◌, Text, ◌==◌, eq_iff, none, is_some,
  erase_first, Bool-cases, inl, inr, arith,
}
use vasum.Server.Zone.{Zone}
use vasum.Server.Manager.{find_zone}
use vasum.Server.Manager.Shape.{ids}

-- No element is the id.
abbrev pub NotIn : Text → List Text → Type 0
NotIn id [] = Unit
NotIn id (i ∷ is) = (i == id ≡ false) × NotIn id is

-- No two elements are the same.
abbrev pub Distinct : List Text → Type 0
Distinct [] = Unit
Distinct (i ∷ is) = NotIn i is × Distinct is

abbrev pub drop_id : Text → List Text → List Text
drop_id id is = erase_first (λ i. i == id) is

pub eq_comm : (a b : Text) → a == b ≡ false → b == a ≡ false
eq_comm a b h = elim (Bool-cases (b == a)) [
  | inl e ↦ cc ((eq_iff a b).1 (sym ((eq_iff b a).0 e)))
  | inr e ↦ e
]

pub NotIn-append :
    (id other : Text) (is : List Text)
    → NotIn id is
    → other == id ≡ false
    → NotIn id (is ++ other ∷ [])
NotIn-append id other [] n e = (e, tt)
NotIn-append id other (i ∷ is) n e = (n.0, NotIn-append id other is n.1 e)

pub Distinct-append :
    (id : Text) (is : List Text) → Distinct is → NotIn id is → Distinct (is ++ id ∷ [])
Distinct-append id [] d n = (tt, tt)
Distinct-append id (i ∷ is) d n =
    (NotIn-append i id is d.0 (eq_comm i id n.0), Distinct-append id is d.1 n.1)

pub NotIn-drop_id : (id other : Text) (is : List Text) → NotIn id is → NotIn id (drop_id other is)
NotIn-drop_id id other [] n = tt
NotIn-drop_id id other (i ∷ is) n = elim (Bool-cases (i == other)) [
  | inl e ↦ rw e n.1
  | inr e ↦ rw e (n.0, NotIn-drop_id id other is n.1)
]

pub Distinct-drop_id : (id : Text) (is : List Text) → Distinct is → Distinct (drop_id id is)
Distinct-drop_id id [] d = tt
Distinct-drop_id id (i ∷ is) d = elim (Bool-cases (i == id)) [
  | inl e ↦ rw e d.1
  | inr e ↦ rw e (NotIn-drop_id i id is d.0, Distinct-drop_id id is d.1)
]

-- Where the ids are distinct, the id that was dropped is gone.
pub drop_id-gone : (id : Text) (is : List Text) → Distinct is → NotIn id (drop_id id is)
drop_id-gone id [] d = tt
drop_id-gone id (i ∷ is) d = elim (Bool-cases (i == id)) [
  | inl e ↦ rw e (subst (λ a. NotIn a is) ((eq_iff i id).0 e) d.0)
  | inr e ↦ rw e (e, drop_id-gone id is d.1)
]

-- An id that is not in the list yet goes to its back, and from there it is dropped again.
pub drop_id-append : (id : Text) (is : List Text) → NotIn id is → drop_id id (is ++ id ∷ []) ≡ is
drop_id-append id [] n = rw ((eq_iff id id).1 refl) refl
drop_id-append id (i ∷ is) n = rw n.0 (ap (◌∷◌ i) (drop_id-append id is n.1))

pub remove_if-append :
    (id : Text) (is : List Text) → NotIn id is → remove_if (λ i. i == id) (is ++ id ∷ []) ≡ is
remove_if-append id [] n = rw ((eq_iff id id).1 refl) refl
remove_if-append id (i ∷ is) n = rw n.0 (ap (◌∷◌ i) (remove_if-append id is n.1))

pub ids-append : (zs : List Zone) (z : Zone) → ids (zs ++ z ∷ []) ≡ ids zs ++ z.id ∷ []
ids-append [] z = refl
ids-append (y ∷ ys) z = rw (ids-append ys z)

pub ids-erase_first :
    (id : Text) (zs : List Zone) → ids (erase_first (λ z. z.id == id) zs) ≡ drop_id id (ids zs)
ids-erase_first id [] = refl
ids-erase_first id (z ∷ zs) = elim (Bool-cases (z.id == id)) [
  | inl e ↦ rw e
  | inr e ↦ rw (e, ids-erase_first id zs)
]

-- Looking a zone up by its id, and the ids.
pub find_zone-NotIn :
    (id : Text) (zs : List Zone) → is_some (find_zone id zs) ≡ false → NotIn id (ids zs)
unfolding find_zone
find_zone-NotIn id [] h = tt
find_zone-NotIn id (z ∷ zs) h = elim (Bool-cases (z.id == id)) [
  | inl e ↦ ground (arith, e, h)
  | inr e ↦ (e, find_zone-NotIn id zs (ground (arith, e, h)))
]

pub NotIn-find_zone : (id : Text) (zs : List Zone) → NotIn id (ids zs) → find_zone id zs ≡ none
unfolding find_zone
NotIn-find_zone id [] n = refl
NotIn-find_zone id (z ∷ zs) n = rw (n.0) (NotIn-find_zone id zs n.1)
