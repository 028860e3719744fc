-- ===== src/Prelude/Returns.antt =====
-- What is true of every value that an action returns, whatever the state: one rule for each way to build an action.
use mathlib.Core.Path.{◌≡◌, subst}
use vasum.Prelude.Exec.{Exec, ok, pure, ◌>>=◌, bind-inv}

pub record Returns {S A : Type 0} (Q : A → Type 0) (m : Exec S A) : Type 0 where
  pub result : (s t : S) (a : A) → m s ≡ (ok a, t) → Q a

pub ok-injective : {A : Type 0} {a b : A} → ok a ≡ ok b → a ≡ b
ok-injective e = cc

module _ {S A : Type 0} {Q : A → Type 0} where
  pub Returns-pure : (a : A) → Q a → Returns {S = S} Q (pure a)
  unfolding pure
  Returns-pure a q = record { result = λ s t b e. subst Q (ok-injective (λ i. (e i).0)) q }

  pub Returns-bind :
      {B : Type 0} (m : Exec S B) (f : B → Exec S A)
      → ((b : B) → Returns Q (f b))
      → Returns Q (m >>= f)
  Returns-bind m f k = record {
    result = λ s t a e. let (b, u, p, q) = bind-inv m f s e in (k b).result u t a q;
  }

-- What is true of a value that an action returns and of the state that it leaves, whatever the state before.
pub record Delivers {S A : Type 0} (Q : A → S → Type 0) (m : Exec S A) : Type 0 where
  pub delivered : (s t : S) (a : A) → m s ≡ (ok a, t) → Q a t

pub Delivers-bind :
    {S A B : Type 0} {Q : A → S → Type 0} (m : Exec S B) (f : B → Exec S A)
    → ((b : B) → Delivers Q (f b))
    → Delivers Q (m >>= f)
Delivers-bind m f k = record {
  delivered = λ s t a e. let (b, u, p, q) = bind-inv m f s e in (k b).delivered u t a q;
}
