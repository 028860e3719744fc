-- ===== src/Server/Manager/VirtualTerminals/Choice.antt =====
-- The choice of a virtual terminal against its description (getVTForNewZone of server/zones-manager.cpp).
use mathlib.Core.Path.{subst}
use vasum.Prelude.{
  ◌≡◌, ◌≢◌, refl, sym, ◌∙◌, ◌⊎◌, inl, inr, List, [], ◌∷◌, All, Any, arith, Bool-cases,
}
use vasum.Prelude.Int.{ℤ, eq_ℤ, ◌≤ℤ◌, ◌<ℤ◌, eq_ℤ_iff}
use vasum.Prelude.Exec.{Outcome, ok, raised, crashed, zone_operation}
use vasum.Server.Zone.{Zone}
use vasum.Server.Manager.VirtualTerminals.{
  insert, to_set, erase, erase_used, smallest, get_vt_for_new_zone,
}

-- The number is in the list.
abbrev pub Has : ℤ → List ℤ → Type 0
Has u as' = Any (λ a. a ≡ u) as'

-- No zone uses the terminal.
abbrev pub IsFree : ℤ → List Zone → Type 0
IsFree u zones = All (λ z. z.dynamic.vt ≢ u) zones

abbrev Increasing : List ℤ → Type 0
Increasing [] = Unit {0}
Increasing (a ∷ as') = All (λ b. a <ℤ b) as' × Increasing as'

Has-insert : (a u : ℤ) (bs : List ℤ) → Has u (insert a bs) → (a ≡ u) ⊎ Has u bs
unfolding insert
Has-insert a u [] (inl e) = inl e
Has-insert a u [] (inr h) = absurd h
Has-insert a u (b ∷ bs) h = ground (arith, Has-insert a u bs)

Has-insert_self : (a : ℤ) (bs : List ℤ) → Has a (insert a bs)
unfolding insert
Has-insert_self a [] = inl refl
Has-insert_self a (b ∷ bs) = ground (arith, Has-insert_self a bs, eq_ℤ_iff a b)

Has-insert_old : (a u : ℤ) (bs : List ℤ) → Has u bs → Has u (insert a bs)
unfolding insert
Has-insert_old a u [] h = absurd h
Has-insert_old a u (b ∷ bs) h = ground (arith, Has-insert_old a u bs)

All-below-insert :
    (c a : ℤ) (bs : List ℤ) → c <ℤ a → All (λ b. c <ℤ b) bs → All (λ b. c <ℤ b) (insert a bs)
unfolding insert
All-below-insert c a [] lt h = (lt, tt)
All-below-insert c a (b ∷ bs) lt h = ground (arith, All-below-insert c a bs)

All-below_trans : (c b : ℤ) (bs : List ℤ) → c <ℤ b → All (λ x. b <ℤ x) bs → All (λ x. c <ℤ x) bs
All-below_trans c b [] lt h = tt
All-below_trans c b (x ∷ xs) lt h = (omega arith, All-below_trans c b xs lt h.1)

Increasing-insert : (a : ℤ) (bs : List ℤ) → Increasing bs → Increasing (insert a bs)
unfolding insert
Increasing-insert a [] h = (tt, tt)
Increasing-insert a (b ∷ bs) h =
    ground (arith, All-below_trans a b bs, All-below-insert b a bs, Increasing-insert a bs h.1)

Has-to_set : (u : ℤ) (as' : List ℤ) → Has u (to_set as') → Has u as'
unfolding to_set
Has-to_set u [] h = h
Has-to_set u (a ∷ as') h = elim (Has-insert a u (to_set as') h) [
  | inl e ↦ inl e
  | inr k ↦ inr (Has-to_set u as' k)
]

to_set-Has : (u : ℤ) (as' : List ℤ) → Has u as' → Has u (to_set as')
unfolding to_set
to_set-Has u [] h = h
to_set-Has u (a ∷ as') (inl e) =
    subst (λ x. Has x (insert a (to_set as'))) e (Has-insert_self a (to_set as'))
to_set-Has u (a ∷ as') (inr h) = Has-insert_old a u (to_set as') (to_set-Has u as' h)

Increasing-to_set : (as' : List ℤ) → Increasing (to_set as')
unfolding to_set
Increasing-to_set [] = tt
Increasing-to_set (a ∷ as') = Increasing-insert a (to_set as') (Increasing-to_set as')

erase-Has : (a u : ℤ) (bs : List ℤ) → Has u (erase a bs) → Has u bs
unfolding erase
erase-Has a u [] h = h
erase-Has a u (b ∷ bs) h = ground (arith, erase-Has a u bs)

Has-erase : (a u : ℤ) (bs : List ℤ) → a ≢ u → Has u bs → Has u (erase a bs)
unfolding erase
Has-erase a u [] ne h = h
Has-erase a u (b ∷ bs) ne (inl e) = elim (Bool-cases (eq_ℤ a b)) [
  | inl same ↦ absurd (ne ((eq_ℤ_iff a b).0 same ∙ e))
  | inr other ↦ rw other (inl e)
]
Has-erase a u (b ∷ bs) ne (inr h) = elim (Bool-cases (eq_ℤ a b)) [
  | inl same ↦ rw same h
  | inr other ↦ rw other (inr (Has-erase a u bs ne h))
]

below-absent : (a : ℤ) (bs : List ℤ) → All (λ b. a <ℤ b) bs → ¬ Has a bs
below-absent a [] h k = k
below-absent a (b ∷ bs) h (inl e) =
    let lt : a <ℤ a = subst (λ x. a <ℤ x) e h.0 in absurd (omega arith)
below-absent a (b ∷ bs) h (inr k) = below-absent a bs h.1 k

erase-absent : (a : ℤ) (bs : List ℤ) → Increasing bs → ¬ Has a (erase a bs)
unfolding erase
erase-absent a [] inc h = h
erase-absent a (b ∷ bs) inc h = elim (Bool-cases (eq_ℤ a b)) [
  | inl same ↦
      let below : All (λ x. a <ℤ x) bs =
        subst (λ c. All (λ x. c <ℤ x) bs) (sym ((eq_ℤ_iff a b).0 same)) inc.0 in
      below-absent a bs below (rw same at h)
  | inr other ↦ elim (rw other at h) as (λ _. ⊥) [
    | inl e ↦ cc ((eq_ℤ_iff a b).1 (sym e))
    | inr k ↦ erase-absent a bs inc.1 k
  ]
]

All-erase : (c a : ℤ) (bs : List ℤ) → All (λ b. c <ℤ b) bs → All (λ b. c <ℤ b) (erase a bs)
unfolding erase
All-erase c a [] h = tt
All-erase c a (b ∷ bs) h = ground (arith, All-erase c a bs)

Increasing-erase : (a : ℤ) (bs : List ℤ) → Increasing bs → Increasing (erase a bs)
unfolding erase
Increasing-erase a [] h = tt
Increasing-erase a (b ∷ bs) h = ground (arith, All-erase b a bs, Increasing-erase a bs)

Increasing-erase_used :
    (zones : List Zone) (bs : List ℤ) → Increasing bs → Increasing (erase_used zones bs)
unfolding erase_used
Increasing-erase_used [] bs h = h
Increasing-erase_used (z ∷ zs) bs h =
    Increasing-erase_used zs _ (Increasing-erase z.dynamic.vt bs h)

-- What is left after the zones' terminals are excluded was there before, and is free.
erase_used_sound :
    (zones : List Zone) (u : ℤ) (bs : List ℤ)
    → Increasing bs
    → Has u (erase_used zones bs)
    → Has u bs × IsFree u zones
unfolding erase_used
erase_used_sound [] u bs inc h = (h, tt)
erase_used_sound (z ∷ zs) u bs inc h =
    let vt = z.dynamic.vt in
    let (left, free) = erase_used_sound zs u (erase vt bs) (Increasing-erase vt bs inc) h in
    (
      erase-Has vt u bs left,
      (λ e. erase-absent vt bs inc (subst (λ x. Has x (erase vt bs)) (sym e) left), free),
    )

erase_used_complete :
    (zones : List Zone) (u : ℤ) (bs : List ℤ)
    → Has u bs
    → IsFree u zones
    → Has u (erase_used zones bs)
unfolding erase_used
erase_used_complete [] u bs h free = h
erase_used_complete (z ∷ zs) u bs h free =
    erase_used_complete zs u (erase z.dynamic.vt bs) (Has-erase z.dynamic.vt u bs free.0 h) free.1

-- What a choice among the available terminals has to be: a free one with none below it that is free, or the exception for
-- zone operations where all are in use.
abbrev pub IsChoice : List ℤ → List Zone → Outcome ℤ → Type 0
IsChoice available zones (ok vt) =
    Has vt available × IsFree vt zones × ((u : ℤ) → Has u available → IsFree u zones → vt ≤ℤ u)
IsChoice available zones (raised e) =
    (e ≡ zone_operation) × ((u : ℤ) → Has u available → ¬ IsFree u zones)
IsChoice available zones crashed = ⊥

below_all : (a u : ℤ) (bs : List ℤ) → All (λ b. a <ℤ b) bs → Has u bs → a ≤ℤ u
below_all a u [] h k = absurd k
below_all a u (b ∷ bs) h (inl e) = subst (λ x. a ≤ℤ x) e (omega arith)
below_all a u (b ∷ bs) h (inr k) = below_all a u bs h.1 k

head_least : (a u : ℤ) (as' : List ℤ) → Increasing (a ∷ as') → Has u (a ∷ as') → a ≤ℤ u
head_least a u as' inc (inl e) = subst (λ x. a ≤ℤ x) e (omega arith)
head_least a u as' inc (inr h) = below_all a u as' inc.0 h

smallest-IsChoice :
    (available : List ℤ) (zones : List Zone) (left : List ℤ)
    → Increasing left
    → ((u : ℤ) → Has u left → Has u available × IsFree u zones)
    → ((u : ℤ) → Has u available → IsFree u zones → Has u left)
    → IsChoice available zones (smallest left)
smallest-IsChoice available zones [] inc sound complete = (refl, λ u h free. complete u h free)
smallest-IsChoice available zones (a ∷ as') inc sound complete =
    let (has, free) = sound a (inl refl) in
    (has, free, λ u h f. head_least a u as' inc (complete u h f))

-- With terminals configured, the terminal of a new zone is the smallest of them that no zone uses; and
-- where all of them are in use, the exception for zone operations is thrown.
pub get_vt_for_new_zone-IsChoice :
    (a : ℤ) (as' : List ℤ) (zones : List Zone)
    → IsChoice (a ∷ as') zones (get_vt_for_new_zone (a ∷ as') zones)
unfolding get_vt_for_new_zone
get_vt_for_new_zone-IsChoice a as' zones =
    let inc = Increasing-to_set (a ∷ as') in
    smallest-IsChoice (a ∷ as') zones (erase_used zones (to_set (a ∷ as')))
      (Increasing-erase_used zones _ inc)
      (λ u h.
        let (has, free) = erase_used_sound zones u _ inc h in (Has-to_set u (a ∷ as') has, free))
      (λ u h free. erase_used_complete zones u _ (to_set-Has u (a ∷ as') h) free)
