-- ===== src/Prelude/Bytes.antt =====
-- A std::string of the program: its bytes.
use Prim.Native.Nat.{ℕ}
use Prim.Native.Char.{code}
use Prim.Native.String.{String}
use mathlib.Core.Path.{◌≡◌, refl}
use mathlib.Core.Logic.{◌↔◌, ◌≢◌, inl, inr}
use mathlib.Core.Bool.{Bool, true, false}
use mathlib.Core.List.{List, [], ◌∷◌}
use native.Mathlib.Omega.{arith}
use vasum.Prelude.Tests.{nat_eq, Bool-cases, if◌then◌else◌}

abbrev pub Text : Type 0
Text = List ℕ

-- The bytes of an ASCII literal.
abbrev pub lit : String → Text
lit String.[] = []
lit (String.◌∷◌ c s) = code c ∷ lit s

infix 50 ◌==◌
unfoldable pub ◌==◌ : Text → Text → Bool
[] == [] = true
[] == (b ∷ bs) = false
(a ∷ as') == [] = false
(a ∷ as') == (b ∷ bs) = let rest = as' == bs in if nat_eq a b then rest else false

pub eq→≡ : (a b : Text) → a == b ≡ true → a ≡ b
unfolding ◌==◌
eq→≡ [] [] h = refl
eq→≡ [] (b ∷ bs) h = cc
eq→≡ (a ∷ as') [] h = cc
eq→≡ (a ∷ as') (b ∷ bs) h = ground (arith, eq→≡ as' bs)

pub eq_refl : (a : Text) → a == a ≡ true
unfolding ◌==◌
eq_refl [] = refl
eq_refl (a ∷ as') = ground (arith, eq_refl as')

pub eq_iff : (a b : Text) → (a == b ≡ true) ↔ (a ≡ b)
eq_iff a b = (eq→≡ a b, λ h. rw h (eq_refl b))

pub ne_false : (a b : Text) → a ≢ b → a == b ≡ false
ne_false a b n = elim (Bool-cases (a == b)) [ inl e ↦ absurd (n (eq→≡ a b e)) | inr e ↦ e ]

abbrev pub is_empty : Text → Bool
is_empty [] = true
is_empty (b ∷ bs) = false
