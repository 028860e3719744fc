-- ===== src/Server/Manager/Focus/Circular.antt =====
-- The circular search of server/zones-manager.cpp against its description: the elements behind the current one, and then
-- those in front of it.
use vasum.Prelude.{
  ℕ, zero, suc, ◌+◌, ◌≤◌, ◌<◌, ◌≡◌, refl, sym, ap, ◌∙◌, inl, inr, Bool, true, false, List, [], ◌∷◌,
  ◌++◌, none, some, arith, length, nat_eq, find_if, Bool-cases, if◌then◌else◌,
}
use vasum.Prelude.Exec.{ok, Exec}
use vasum.Server.Manager.Focus.{get_elem?, circular_loop, circular_find_next}

abbrev pub drop {ℓ} : {A : Type ℓ} → ℕ → List A → List A
drop zero xs = xs
drop (suc n) [] = []
drop (suc n) (x ∷ xs) = drop n xs

abbrev pub take {ℓ} : {A : Type ℓ} → ℕ → List A → List A
take zero xs = []
take (suc n) [] = []
take (suc n) (x ∷ xs) = x ∷ take n xs

module _ {A : Type 0} where
  drop-get_elem? :
      (n : ℕ) (xs : List A)
      → n < length xs
      → (x : A) × (get_elem? xs n ≡ some x) × (drop n xs ≡ x ∷ drop (suc n) xs)
  drop-get_elem? n [] h = absurd (omega arith)
  drop-get_elem? zero (x ∷ xs) h = (x, refl, refl)
  drop-get_elem? (suc n) (x ∷ xs) h = drop-get_elem? n xs (omega arith)

  take-get_elem? :
      (n : ℕ) (xs : List A) {x : A}
      → get_elem? xs n ≡ some x
      → take (suc n) xs ≡ take n xs ++ x ∷ []
  take-get_elem? n [] e = cc
  take-get_elem? zero (y ∷ ys) e = cc
  take-get_elem? (suc n) (y ∷ ys) e = ap (◌∷◌ y) (take-get_elem? n ys e)

  drop_all : (n : ℕ) (xs : List A) → length xs ≤ n → drop n xs ≡ []
  drop_all zero [] h = refl
  drop_all zero (x ∷ xs) h = absurd (omega arith)
  drop_all (suc n) [] h = refl
  drop_all (suc n) (x ∷ xs) h = drop_all n xs (omega arith)

  length-take : (n : ℕ) (xs : List A) → n ≤ length xs → length (take n xs) ≡ n
  length-take zero xs h = refl
  length-take (suc n) [] h = absurd (omega arith)
  length-take (suc n) (x ∷ xs) h = ap suc (length-take n xs (omega arith))

  get_elem?-take : (n i : ℕ) (xs : List A) → i < n → get_elem? (take n xs) i ≡ get_elem? xs i
  get_elem?-take zero i xs h = absurd (omega arith)
  get_elem?-take (suc n) i [] h = refl
  get_elem?-take (suc n) zero (x ∷ xs) h = refl
  get_elem?-take (suc n) (suc i) (x ∷ xs) h = get_elem?-take n i xs (omega arith)

-- The position after `next`, and around the end.
abbrev after : ℕ → ℕ → ℕ
after next size = if nat_eq (next + 1) size then 0 else next + 1

module _ {W A : Type 0} (pred : A → Exec W Bool) (p : A → Bool) (w : W)
    (answers : (x : A) → pred x w ≡ (ok (p x), w)) (xs : List A) (current : ℕ) where
  round_stops :
      (fuel next : ℕ)
      → nat_eq (after next (length xs)) current ≡ true
      → circular_loop pred (suc fuel) xs current next w ≡ (ok none, w)
  unfolding circular_loop
  round_stops fuel next e = rw e

  round :
      (fuel next i : ℕ) (x : A)
      → after next (length xs) ≡ i
      → nat_eq i current ≡ false
      → get_elem? xs i ≡ some x
      → circular_loop pred (suc fuel) xs current next w
        ≡ (if p x then (ok (some x), w) else circular_loop pred fuel xs current i w)
  unfolding circular_loop
  round fuel next i x at ne found = elim (Bool-cases (p x)) [
    | inl e ↦ rw (at, ne, found, answers x, e, answers x)
    | inr e ↦ rw (at, ne, found, answers x, e, answers x, at)
  ]

  -- A round whose element is the first of those that are left.
  round_cons :
      (fuel next i : ℕ) (x : A) (rest : List A)
      → after next (length xs) ≡ i
      → nat_eq i current ≡ false
      → get_elem? xs i ≡ some x
      → circular_loop pred fuel xs current i w ≡ (ok (find_if p rest), w)
      → circular_loop pred (suc fuel) xs current next w ≡ (ok (find_if p (x ∷ rest)), w)
  round_cons fuel next i x rest at ne found ih = elim (Bool-cases (p x)) [
    | inl e ↦ rw (round fuel next i x at ne found, e)
    | inr e ↦ rw (round fuel next i x at ne found, e, ih)
  ]

  -- In front of the current position.
  front :
      (fuel next : ℕ)
      → next < current
      → current < length xs
      → current ≤ fuel + next
      → circular_loop pred fuel xs current next w
        ≡ (ok (find_if p (drop (suc next) (take current xs))), w)
  front zero next lt size enough = absurd (omega arith)
  front (suc fuel) next lt size enough =
      let at : after next (length xs) ≡ suc next = ground arith in
      elim (Bool-cases (nat_eq (suc next) current)) [
        | inl e ↦
            let gone : drop (suc next) (take current xs) ≡ [] =
              drop_all (suc next) (take current xs)
                (ground (arith, length-take current xs (omega arith))) in
            rw gone (round_stops fuel next (rw at e))
        | inr e ↦
            let below : suc next < current = ground arith in
            let (x, found, split) =
              drop-get_elem? (suc next) (take current xs)
                (omega (arith, length-take current xs (omega arith))) in
            rw split (
              round_cons fuel next (suc next) x (drop (suc (suc next)) (take current xs)) at e
                (sym (get_elem?-take current (suc next) xs below) ∙ found)
                (front fuel (suc next) below size (omega arith)))
      ]

  -- Around the end: from the first position.
  around :
      (fuel next : ℕ)
      → suc next ≡ length xs
      → current < length xs
      → current < fuel
      → circular_loop pred fuel xs current next w ≡ (ok (find_if p (take current xs)), w)
  around zero next last size enough = absurd (omega arith)
  around (suc fuel) next last size enough =
      let at : after next (length xs) ≡ 0 = ground arith in
      elim (Bool-cases (nat_eq 0 current)) [
        | inl e ↦
            let none_ahead : take current xs ≡ [] =
              drop_all 0 (take current xs) (ground (arith, length-take current xs (omega arith))) in
            rw none_ahead (round_stops fuel next (rw at e))
        | inr e ↦
            let below : 0 < current = ground arith in
            let (x, found, split) =
              drop-get_elem? 0 (take current xs)
                (omega (arith, length-take current xs (omega arith))) in
            rw split (
              round_cons fuel next 0 x (drop 1 (take current xs)) at e
                (sym (get_elem?-take current 0 xs below) ∙ found)
                (front fuel 0 below size (omega arith)))
      ]

  -- Behind the current position.
  behind :
      (fuel next : ℕ)
      → current ≤ next
      → next < length xs
      → length xs + current ≤ fuel + next
      → circular_loop pred fuel xs current next w
        ≡ (ok (find_if p (drop (suc next) xs ++ take current xs)), w)
  behind zero next le size enough = absurd (omega arith)
  behind (suc fuel) next le size enough = elim (Bool-cases (nat_eq (next + 1) (length xs))) [
    | inl e ↦
        let last : suc next ≡ length xs = ground arith in
        rw (drop_all (suc next) xs (omega arith))
          (around (suc fuel) next last (omega arith) (omega arith))
    | inr e ↦
        let at : after next (length xs) ≡ suc next = ground arith in
        let (x, found, split) = drop-get_elem? (suc next) xs (ground arith) in
        rw split (
          round_cons fuel next (suc next) x (drop (suc (suc next)) xs ++ take current xs) at
            (ground arith) found
            (behind fuel (suc next) (omega arith) (ground arith) (omega arith)))
  ]

-- Where the test answers without changing the world, the circular search from a position of the list ends, and finds the
-- first element with the test among those behind the position, in order, and then those in front of it; the element at
-- the position itself is not looked at, and nothing is found only where none of the others has the test.
pub circular_find_next-find_if :
    {W A : Type 0} (pred : A → Exec W Bool) (p : A → Bool) (w : W) (xs : List A) (current : ℕ)
    → ((x : A) → pred x w ≡ (ok (p x), w))
    → current < length xs
    → circular_find_next pred xs (some current) w
      ≡ (ok (find_if p (drop (suc current) xs ++ take current xs)), w)
unfolding circular_find_next
circular_find_next-find_if pred p w [] current answers size = absurd (omega arith)
circular_find_next-find_if pred p w (x ∷ xs) current answers size =
    behind pred p w answers (x ∷ xs) current (length (x ∷ xs)) current (omega arith) size
      (omega arith)
