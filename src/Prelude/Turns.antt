-- ===== src/Prelude/Turns.antt =====
-- What a method that returns makes of a state: a condition before, and another one after. There is a rule for each way to
-- put methods together.
use mathlib.Core.Path.{◌≡◌, ap, subst}
use mathlib.Core.Bool.{Bool, true, false}
use vasum.Prelude.Tests.{if◌then◌else◌}
use vasum.Prelude.Exec.{
  Exception, Outcome, ok, raised, crashed, Exec, throw, modify, handle, catch, ◌>>=◌, on_world,
  bind-inv,
}
use vasum.Prelude.Keeps.{Keeps}
use vasum.Prelude.Returns.{Returns}

pub record Turns {S A : Type 0} (P Q : S → Type 0) (m : Exec S A) : Type 0 where
  pub outcome : (s t : S) (a : A) → P s → m s ≡ (ok a, t) → Q t

-- No condition.
abbrev pub Anything : {S : Type 0} → S → Type 0
Anything s = Unit {0}

pub Turns-Keeps : {S A : Type 0} {P : S → Type 0} (m : Exec S A) → Keeps P m → Turns P P m
Turns-Keeps {P} m k = record { outcome = λ s t a p e. subst P (ap (λ r. r.1) e) (k.after s p) }

module _ {S A : Type 0} {Q : S → Type 0} where
  handled :
      (pred : Exception → Bool) (h : Exception → Exec S A) (r : Outcome A) (s t : S) (a : A)
      → (r ≡ ok a → s ≡ t → Q t)
      → ((e : Exception) → Turns Anything Q (h e))
      → handle pred h r s ≡ (ok a, t)
      → Q t
  handled pred h (ok x) s t a done kh e = done (ap (λ r. r.0) e) (ap (λ r. r.1) e)
  handled pred h (raised x) s t a done kh e = pick (pred x) e
    where
      pick : (b : Bool) → (if b then h x s else (raised x, s)) ≡ (ok a, t) → Q t
      pick true e' = (kh x).outcome s t a tt e'
      pick false e' = cc e'
  handled pred h crashed s t a done kh e = cc e

module _ {S A : Type 0} {P Q : S → Type 0} where
  pub Turns-throw : (e : Exception) → Turns P Q (throw {A = A} e)
  unfolding throw
  Turns-throw e = record { outcome = λ s t a p r. cc }

  -- Where the handler of an exception returns nothing, or makes the condition true by itself.
  pub Turns-catch :
      (pred : Exception → Bool) (m : Exec S A) (h : Exception → Exec S A)
      → Turns P Q m
      → ((e : Exception) → Turns Anything Q (h e))
      → Turns P Q (catch pred m h)
  unfolding catch
  Turns-catch pred m h km kh = record {
    outcome = λ s t a p e.
        handled pred h (m s).0 (m s).1 t a (λ same end. km.outcome s t a p (λ i. (same i, end i)))
          kh e;
  }

module _ {S A B : Type 0} {P R Q : S → Type 0} where
  pub Turns-bind :
      (first : Exec S B) (rest : B → Exec S A)
      → Turns P R first
      → ((b : B) → Turns R Q (rest b))
      → Turns P Q (first >>= rest)
  Turns-bind first rest before after = record {
    outcome = λ s t a p e.
        let (b, u, first_ok, rest_ok) = bind-inv first rest s e in
        (after b).outcome u t a (before.outcome s u b p first_ok) rest_ok;
  }

  -- The rest may use what is true of the value of the first.
  pub Turns-bind-Returns :
      {Value : B → Type 0} (first : Exec S B) (rest : B → Exec S A)
      → Returns Value first
      → Turns P R first
      → ((b : B) → Value b → Turns R Q (rest b))
      → Turns P Q (first >>= rest)
  Turns-bind-Returns first rest value before after = record {
    outcome = λ s t a p e.
        let (b, u, first_ok, rest_ok) = bind-inv first rest s e in
        (after b (value.result s u b first_ok)).outcome u t a (before.outcome s u b p first_ok)
          rest_ok;
  }

module _ {S A B : Type 0} {P Q : S → Type 0} where
  -- The first part keeps the condition.
  pub Turns-before :
      (first : Exec S B) (rest : B → Exec S A)
      → Keeps P first
      → ((b : B) → Turns P Q (rest b))
      → Turns P Q (first >>= rest)
  Turns-before first rest kept after = Turns-bind first rest (Turns-Keeps first kept) after

  -- The rest keeps what the first part reached.
  pub Turns-after :
      (first : Exec S B) (rest : B → Exec S A)
      → Turns P Q first
      → ((b : B) → Keeps Q (rest b))
      → Turns P Q (first >>= rest)
  Turns-after first rest before kept =
      Turns-bind first rest before (λ b. Turns-Keeps (rest b) (kept b))

pub Turns-modify :
    {S : Type 0} {P Q : S → Type 0} (f : S → S) → ((s : S) → P s → Q (f s)) → Turns P Q (modify f)
unfolding modify
Turns-modify {Q} f k = record { outcome = λ s t a p e. subst Q (ap (λ r. r.1) e) (k s p) }

pub Returns-on_world :
    {O W A : Type 0} {Value : A → Type 0} (m : Exec W A)
    → Returns Value m
    → Returns {S = O × W} Value (on_world m)
unfolding on_world
Returns-on_world m k = record {
  result = λ s t a e. k.result s.1 (m s.1).1 a (λ i. ((e i).0, (m s.1).1));
}
