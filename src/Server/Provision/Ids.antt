-- ===== src/Server/Provision/Ids.antt =====
-- The ids under which server/zone-provision.cpp keeps its declarations: which of them tell declarations apart.
use vasum.Prelude.{
  ℕ, ◌≡◌, ◌≢◌, refl, sym, ap, ◌∙◌, [], ◌∷◌, ◌++◌, Text, lit, All, arith, length, length-append,
}
use mathlib.Core.List.{append_assoc}
use vasum.Prelude.Int.{ℤ}
use vasum.Prelude.Decimal.{to_string, IsVisible, to_string-IsVisible, to_string_injective}
use vasum.Prelude.Exec.{Outcome, ok}
use vasum.Server.Provision.{Provision, file, mount, link, unset, get_id}

tail : Text → Text
tail [] = []
tail (c ∷ cs) = cs

head : Text → ℕ
head [] = 0
head (c ∷ cs) = c

cons_eq : (c d : ℕ) (cs ds : Text) → c ∷ cs ≡ d ∷ ds → (c ≡ d) × (cs ≡ ds)
unfolding tail head
cons_eq c d cs ds e = (ap head e, ap tail e)

no_space_inside : (a x y : Text) → All IsVisible x → x ≡ a ++ 32 ∷ y → ⊥
no_space_inside [] [] y v e = cc
no_space_inside [] (c ∷ cs) y v e = omega (arith, (cons_eq c 32 cs y e).0)
no_space_inside (d ∷ ds) [] y v e = cc
no_space_inside (d ∷ ds) (c ∷ cs) y v e =
    no_space_inside ds cs y v.1 (cons_eq c d cs (ds ++ 32 ∷ y) e).1

-- A word with no space is found again behind the last space.
last_word :
    (a b x y : Text)
    → All IsVisible x
    → All IsVisible y
    → a ++ 32 ∷ x ≡ b ++ 32 ∷ y
    → (a ≡ b) × (x ≡ y)
last_word [] [] x y vx vy e = (refl, (cons_eq 32 32 x y e).1)
last_word [] (d ∷ ds) x y vx vy e =
    absurd (no_space_inside ds x y vx (cons_eq 32 d x (ds ++ 32 ∷ y) e).1)
last_word (c ∷ cs) [] x y vx vy e =
    absurd (no_space_inside cs y x vy (sym (cons_eq c 32 (cs ++ 32 ∷ x) y e).1))
last_word (c ∷ cs) (d ∷ ds) x y vx vy e =
    let (h, t) = cons_eq c d (cs ++ 32 ∷ x) (ds ++ 32 ∷ y) e in
    let (p, q) = last_word cs ds x y vx vy t in (cc, q)

ok_eq : (a b : Text) → ok a ≡ ok b → a ≡ b
ok_eq a b e = cc

file_words : ℤ → Text → ℤ → ℤ → Text
file_words type path flags mode =
    ((path ++ 32 ∷ to_string type) ++ 32 ∷ to_string flags) ++ 32 ∷ to_string mode

get_id-file :
    (type : ℤ) (path : Text) (flags mode : ℤ)
    → get_id (file type path flags mode) ≡ ok (lit "file " ++ file_words type path flags mode)
unfolding get_id file_words
get_id-file type path flags mode = simp append_assoc

file_words_injective :
    (t u : ℤ) (p q : Text) (f g m n : ℤ)
    → file_words t p f m ≡ file_words u q g n
    → file t p f m ≡ file u q g n
unfolding file_words
file_words_injective t u p q f g m n e =
    let (e₁, hm) = last_word _ _ _ _ (to_string-IsVisible m) (to_string-IsVisible n) e in
    let (e₂, hf) = last_word _ _ _ _ (to_string-IsVisible f) (to_string-IsVisible g) e₁ in
    let (hp, ht) = last_word _ _ _ _ (to_string-IsVisible t) (to_string-IsVisible u) e₂ in
    cc (hp, to_string_injective t u ht, to_string_injective f g hf, to_string_injective m n hm)

abbrev first_byte : Outcome Text → ℕ
first_byte (ok (c ∷ cs)) = c
first_byte r = 0

-- A declared file has its id for itself: whatever declaration has the same id is that file, with that
-- path, type, flags and mode.
pub get_id-file_injective :
    (p : Provision) (type : ℤ) (path : Text) (flags mode : ℤ)
    → get_id p ≡ get_id (file type path flags mode)
    → p ≡ file type path flags mode
get_id-file_injective (file u q g n) type path flags mode e =
    file_words_injective u type q path g flags n mode
      (cc (sym (get_id-file u q g n) ∙ e ∙ get_id-file type path flags mode))
get_id-file_injective (mount source target kind g options) type path flags mode e =
    absurd (unfold get_id in omega (arith, ap first_byte e))
get_id-file_injective (link source target) type path flags mode e =
    absurd (unfold get_id in omega (arith, ap first_byte e))
get_id-file_injective unset type path flags mode e = unfold get_id in cc

source_of : Provision → Text
source_of (link source target) = source
source_of p = []

longer : (a b : Text) → source_of (link (a ++ lit " " ++ b) []) ≡ a → ⊥
unfolding source_of
longer a b e = omega (arith, ap length e, length-append (a ++ lit " ") b, length-append a (lit " "))

-- The id of a link does not tell where its source ends: a source with a space and a target share their
-- id with the shorter source and the longer target, and these are different links.
pub get_id-link_collides :
    (a b c : Text)
    → (get_id (link (a ++ lit " " ++ b) c) ≡ get_id (link a (b ++ lit " " ++ c)))
      × (link (a ++ lit " " ++ b) c ≢ link a (b ++ lit " " ++ c))
unfolding get_id source_of
get_id-link_collides a b c = (simp append_assoc, λ e. longer a b (ap source_of e))
