-- ===== src/Prelude/Decimal.antt =====
-- std::to_string of an integer: its decimal text, which determines the integer and holds no space.
use vasum.Prelude.Tests.{ltb, nat_eq, if◌then◌else◌}
use vasum.Prelude.Lists.{All, All-append}
use vasum.Prelude.Bytes.{Text}
use vasum.Prelude.Int.{ℤ, pos, negsuc}
use Prim.Native.Nat.{ℕ, zero, suc, ◌+◌, ◌-◌, ◌*◌, ◌/◌, ◌%◌, ◌≤◌, ◌<◌}
use mathlib.Core.Path.{◌≡◌, refl, sym, ap, ◌∙◌}
use mathlib.Core.Bool.{true, false}
use mathlib.Core.List.{[], ◌∷◌, ◌++◌}
use native.Mathlib.Omega.{arith}

-- The digits of `n`, with fuel for more divisions than `n` needs.
decimal : ℕ → ℕ → Text
decimal zero n = []
decimal (suc fuel) n = elim (ltb n 10) [
  | true ↦ (48 + n) ∷ []
  | false ↦ decimal fuel (n / 10) ++ (48 + n % 10) ∷ []
]

unfoldable pub to_string : ℤ → Text
unfolding decimal
to_string (pos n) = decimal (suc n) n
to_string (negsuc n) = 45 ∷ decimal (suc (suc n)) (suc n)

value : ℕ → Text → ℕ
value acc [] = acc
value acc (c ∷ cs) = value (acc * 10 + (c - 48)) cs

value-append :
    (acc : ℕ) (xs : Text) (c : ℕ) → value acc (xs ++ c ∷ []) ≡ value acc xs * 10 + (c - 48)
unfolding value
value-append acc [] c = refl
value-append acc (x ∷ xs) c = value-append (acc * 10 + (x - 48)) xs c

-- The fuel suffices: the digits read back as the number.
value-decimal : (fuel n : ℕ) → n < fuel → value 0 (decimal fuel n) ≡ n
unfolding value decimal
value-decimal zero n h = elim h [ ]
value-decimal (suc fuel) n h =
    ground
      (arith, value-append 0 (decimal fuel (n / 10)) (48 + n % 10), value-decimal fuel (n / 10))

abbrev IsDigit : ℕ → Type 0
IsDigit c = 48 ≤ c

decimal-IsDigit : (fuel n : ℕ) → All IsDigit (decimal fuel n)
unfolding decimal
decimal-IsDigit zero n = tt
decimal-IsDigit (suc fuel) n = ground (
  arith,
  decimal-IsDigit fuel (n / 10),
  All-append IsDigit (decimal fuel (n / 10)) ((48 + n % 10) ∷ []),
)

-- No byte of the text is a space, or below one.
abbrev pub IsVisible : ℕ → Type 0
IsVisible c = 33 ≤ c

digits-IsVisible : (cs : Text) → All IsDigit cs → All IsVisible cs
digits-IsVisible [] h = tt
digits-IsVisible (c ∷ cs) h = (omega arith, digits-IsVisible cs h.1)

pub to_string-IsVisible : (a : ℤ) → All IsVisible (to_string a)
unfolding to_string
to_string-IsVisible (pos n) = digits-IsVisible _ (decimal-IsDigit (suc n) n)
to_string-IsVisible (negsuc n) =
    (omega arith, digits-IsVisible _ (decimal-IsDigit (suc (suc n)) (suc n)))

-- A reader of decimal texts, to show that the text determines the integer.
pub read : Text → ℤ
read [] = pos 0
read (c ∷ cs) = if nat_eq c 45 then negsuc (value 0 cs - 1) else pos (value 0 (c ∷ cs))

read_digits : (cs : Text) → All IsDigit cs → read cs ≡ pos (value 0 cs)
unfolding read value
read_digits [] h = refl
read_digits (c ∷ cs) h = ground arith

pub read-to_string : (a : ℤ) → read (to_string a) ≡ a
unfolding to_string
read-to_string (pos n) =
    read_digits _ (decimal-IsDigit (suc n) n) ∙ ap pos (value-decimal (suc n) n (omega arith))
read-to_string (negsuc n) =
    unfold read in ap negsuc (omega (arith, value-decimal (suc (suc n)) (suc n) (omega arith)))

pub to_string_injective : (a b : ℤ) → to_string a ≡ to_string b → a ≡ b
to_string_injective a b e = sym (read-to_string a) ∙ ap read e ∙ read-to_string b
