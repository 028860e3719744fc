-- ===== src/Lxcpp/ProvisionConfig/Lists.antt =====
-- What adding and removing make of the lists of provisions (libs/lxcpp/provision-config.cpp).
use vasum.Prelude.{
  ◌≡◌, ◌≢◌, ◌↔◌, ◌⊎◌, inl, inr, refl, sym, ap, Bool, true, false, List, [], ◌∷◌, ◌++◌, any,
  erase_first, All, Any, All-append, ◌∙◌, arith, Bool-cases,
}
use mathlib.Core.Path.{subst}
use vasum.Prelude.Returns.{ok-injective}
use vasum.Prelude.Exec.{ok, raised, provision_error}
use vasum.Lxcpp.ProvisionConfig.{add_item, remove_item}

pub record Decides {A : Type 0} (eq : A → A → Bool) : Type 0 where
  pub iff : (a b : A) → (eq a b ≡ true) ↔ (a ≡ b)

-- No item is in the list twice.
abbrev pub Distinct : {A : Type 0} → List A → Type 0
Distinct [] = Unit
Distinct (x ∷ xs) = All (λ y. y ≢ x) xs × Distinct xs

module _ {A : Type 0} (eq : A → A → Bool) (d : Decides eq) where
  absent : (items : List A) (a : A) → any (λ x. eq x a) items ≡ false → All (λ x. x ≢ a) items
  absent [] a h = tt
  absent (x ∷ xs) a h = elim (Bool-cases (eq x a)) [
    | inl same ↦ cc (rw same at h)
    | inr other ↦ (λ e. cc (other, (d.iff x a).1 e), absent xs a (rw other at h))
  ]

  found : (items : List A) (a : A) → any (λ x. eq x a) items ≡ true → Any (λ x. x ≡ a) items
  found [] a h = cc
  found (x ∷ xs) a h = elim (Bool-cases (eq x a)) [
    | inl same ↦ inl ((d.iff x a).0 same)
    | inr other ↦ inr (found xs a (rw other at h))
  ]

  present : (items : List A) (a : A) → any (λ x. eq x a) (items ++ a ∷ []) ≡ true
  present [] a = rw ((d.iff a a).1 refl) refl
  present (x ∷ xs) a = rw (present xs a) (ground arith)

  erase_last :
      (items : List A) (a : A)
      → any (λ x. eq x a) items ≡ false
      → erase_first (λ x. eq x a) (items ++ a ∷ []) ≡ items
  erase_last [] a h = rw ((d.iff a a).1 refl) refl
  erase_last (x ∷ xs) a h = elim (Bool-cases (eq x a)) [
    | inl same ↦ cc (rw same at h)
    | inr other ↦ rw other (ap (λ l. x ∷ l) (erase_last xs a (rw other at h)))
  ]

  Distinct-append_one :
      (items : List A) (a : A)
      → Distinct items
      → All (λ x. x ≢ a) items
      → Distinct (items ++ a ∷ [])
  Distinct-append_one [] a h n = (tt, tt)
  Distinct-append_one (x ∷ xs) a (h, hs) (n, ns) =
      (All-append (λ y. y ≢ x) xs (a ∷ []) h ((λ e. n (sym e)), tt), Distinct-append_one xs a hs ns)

  All-erase :
      (P : A → Type 0) (p : A → Bool) (items : List A) → All P items → All P (erase_first p items)
  All-erase P p [] h = tt
  All-erase P p (x ∷ xs) (h, hs) = elim (Bool-cases (p x)) [
    | inl e ↦ rw e hs
    | inr e ↦ rw e (h, All-erase P p xs hs)
  ]

  erase-Distinct : (p : A → Bool) (items : List A) → Distinct items → Distinct (erase_first p items)
  erase-Distinct p [] h = tt
  erase-Distinct p (x ∷ xs) (h, hs) = elim (Bool-cases (p x)) [
    | inl e ↦ rw e hs
    | inr e ↦ rw e (All-erase (λ y. y ≢ x) p xs h, erase-Distinct p xs hs)
  ]

  -- An item is added behind the others where it is not among them, and refused where it is.
  pub add_item_cases :
      (items : List A) (a : A)
      → ((add_item eq items a ≡ ok (items ++ a ∷ [])) × All (λ x. x ≢ a) items)
        ⊎ ((add_item eq items a ≡ raised provision_error) × Any (λ x. x ≡ a) items)
  unfolding add_item
  add_item_cases items a = elim (Bool-cases (any (λ x. eq x a) items)) [
    | inl e ↦ inr (rw e refl, found items a e)
    | inr e ↦ inl (rw e refl, absent items a e)
  ]

  pub remove-add_item :
      (items items' : List A) (a : A)
      → add_item eq items a ≡ ok items'
      → remove_item eq items' a ≡ ok items
  unfolding add_item remove_item
  remove-add_item items items' a e = elim (Bool-cases (any (λ x. eq x a) items)) [
    | inl old ↦ cc (rw old at e)
    | inr new ↦
        let grown : items ++ a ∷ [] ≡ items' = cc (rw new at e) in
        rw (← grown) (rw (present items a, erase_last items a new) refl)
  ]

  pub add_item-Distinct :
      (items items' : List A) (a : A)
      → Distinct items
      → add_item eq items a ≡ ok items'
      → Distinct items'
  add_item-Distinct items items' a h e = elim (add_item_cases items a) [
    | inl (e', n) ↦ subst Distinct (ok-injective (sym e' ∙ e)) (Distinct-append_one items a h n)
    | inr (e', n) ↦ cc (e, e')
  ]

  pub remove_item-Distinct :
      (items items' : List A) (a : A)
      → Distinct items
      → remove_item eq items a ≡ ok items'
      → Distinct items'
  unfolding remove_item
  remove_item-Distinct items items' a h e = elim (Bool-cases (any (λ x. eq x a) items)) [
    | inl old ↦ subst Distinct (ok-injective (rw old at e)) (erase-Distinct (λ x. eq x a) items h)
    | inr new ↦ cc (rw new at e)
  ]
