-- ===== src/Prelude/Keeps.antt =====
-- What stays true of the state over an action, however it ends: a predicate that holds before holds after. There is a
-- rule for each operation that actions are put together from.
use mathlib.Core.Bool.{Bool, true, false}
use mathlib.Core.Path.{◌≡◌, ap, subst}
use vasum.Prelude.Tests.{if◌then◌else◌}
use vasum.Prelude.Exec.{
  Exception, Outcome, ok, raised, crashed, Exec, pure, throw, crash, gets, of_outcome, modify, when,
  assert, handle, catch, continue, ◌>>=◌, on_world, bind-inv,
}

pub record Keeps {S A : Type 0} (P : S → Type 0) (m : Exec S A) : Type 0 where
  pub after : (s : S) → P s → P (m s).1

module _ {S A : Type 0} {P : S → Type 0} where
  pub Keeps-pure : (a : A) → Keeps P (pure a)
  unfolding pure
  Keeps-pure a = record { after = λ s h. h }

  pub Keeps-throw : (e : Exception) → Keeps P (throw {A = A} e)
  unfolding throw
  Keeps-throw e = record { after = λ s h. h }

  pub Keeps-crash : Keeps P (crash {A = A})
  unfolding crash
  Keeps-crash = record { after = λ s h. h }

  pub Keeps-gets : (f : S → A) → Keeps P (gets f)
  unfolding gets
  Keeps-gets f = record { after = λ s h. h }

  pub Keeps-of_outcome : (r : Outcome A) → Keeps P (of_outcome r)
  unfolding of_outcome
  Keeps-of_outcome r = record { after = λ s h. h }

  pub Keeps-if : (b : Bool) (m n : Exec S A) → Keeps P m → Keeps P n → Keeps P (if b then m else n)
  Keeps-if true m n km kn = km
  Keeps-if false m n km kn = kn

  handle-keeps :
      (p : Exception → Bool) (h : Exception → Exec S A)
      → ((e : Exception) → Keeps P (h e))
      → (r : Outcome A) (s : S) → P s
      → P (handle p h r s).1
  handle-keeps p h kh (ok a) s x = x
  handle-keeps p h kh (raised e) s x = pick (p e)
    where
      pick : (b : Bool) → P (if b then h e s else (raised e, s)).1
      pick true = (kh e).after s x
      pick false = x
  handle-keeps p h kh crashed s x = x

  pub Keeps-catch :
      (p : Exception → Bool) (m : Exec S A) (h : Exception → Exec S A)
      → Keeps P m
      → ((e : Exception) → Keeps P (h e))
      → Keeps P (catch p m h)
  unfolding catch
  Keeps-catch p m h km kh = record {
    after = λ s x. handle-keeps p h kh (m s).0 (m s).1 (km.after s x);
  }

module _ {S : Type 0} {P : S → Type 0} where
  pub Keeps-modify : (f : S → S) → ((s : S) → P s → P (f s)) → Keeps P (modify f)
  unfolding modify
  Keeps-modify f k = record { after = k }

  pub Keeps-when : (b : Bool) (m : Exec S (Unit {0})) → Keeps P m → Keeps P (when b m)
  unfolding when
  Keeps-when true m k = record { after = λ s h. k.after s h }
  Keeps-when false m k = record { after = λ s h. h }

  pub Keeps-assert : (b : Bool) → Keeps P (assert b)
  unfolding assert
  Keeps-assert true = record { after = λ s h. h }
  Keeps-assert false = record { after = λ s h. h }

module _ {S A B : Type 0} {P : S → Type 0} where
  continue-keeps :
      (r : Outcome A) (rest : A → Exec S B) (s : S)
      → ((a : A) → Keeps P (rest a))
      → P s
      → P (continue r rest s).1
  continue-keeps (ok a) rest s kept p = (kept a).after s p
  continue-keeps (raised e) rest s kept p = p
  continue-keeps crashed rest s kept p = p

  pub Keeps-bind :
      (first : Exec S A) (rest : A → Exec S B)
      → Keeps P first
      → ((a : A) → Keeps P (rest a))
      → Keeps P (first >>= rest)
  unfolding ◌>>=◌
  Keeps-bind first rest before kept = record {
    after = λ s p. continue-keeps (first s).0 rest (first s).1 kept (before.after s p);
  }

-- A call of the world keeps what is said of the object alone.
pub Keeps-on_world :
    {O W A : Type 0} (P : O → Type 0) (m : Exec W A) → Keeps (λ (s : O × W). P s.0) (on_world m)
unfolding on_world
Keeps-on_world P m = record { after = λ s h. h }

pub ruleset keeps_rules = (
  Keeps-pure, Keeps-throw, Keeps-crash, Keeps-gets, Keeps-of_outcome, Keeps-if, Keeps-catch,
  Keeps-when, Keeps-assert, Keeps-bind,
)

-- A predicate that holds after an action, whether it returns, throws or crashes, and whatever held before.
pub record Ends {S A : Type 0} (P : S → Type 0) (m : Exec S A) : Type 0 where
  pub reached : (s : S) → P (m s).1

pub Ends-bind :
    {S A B : Type 0} {P : S → Type 0} (m : Exec S A) (f : A → Exec S B)
    → Ends P m
    → ((a : A) → Keeps P (f a))
    → Ends P (m >>= f)
unfolding ◌>>=◌
Ends-bind m f em kf = record { reached = λ s. continue-keeps (m s).0 f (m s).1 kf (em.reached s) }

-- A predicate that holds after an action that returned, whatever held before.
pub record Settles {S A : Type 0} (P : S → Type 0) (m : Exec S A) : Type 0 where
  pub settled : (s t : S) (a : A) → m s ≡ (ok a, t) → P t

module _ {S A : Type 0} {P : S → Type 0} where
  pub Settles-Ends : (m : Exec S A) → Ends P m → Settles P m
  Settles-Ends m em = record { settled = λ s t a e. subst P (ap (λ p. p.1) e) (em.reached s) }

  pub Settles-bind :
      {B : Type 0} (m : Exec S B) (f : B → Exec S A)
      → ((b : B) → Settles P (f b))
      → Settles P (m >>= f)
  Settles-bind m f k = record {
    settled = λ s t a e. let (b, u, p, q) = bind-inv m f s e in (k b).settled u t a q;
  }
