-- ===== src/Prelude/Exec.antt =====
-- The methods of the program's objects as functions on a state. A method returns, throws an exception or ends the process
-- (by a failed `assert` or by undefined behaviour, which no handler catches); in each case the state is the one that it had
-- reached by then, since an exception does not undo what was written.
use vasum.Prelude.Tests.{if◌then◌else◌}
use mathlib.Core.Path.{◌≡◌, refl}
use mathlib.Core.Bool.{Bool, true, false}

-- The exception types that the code tells apart, thrown by it or by what it calls: those of the server, then those of the
-- container library.
pub data Exception : Type 0 where
  invalid_zone_id zone_operation server_other : Exception
  provision_exists provision_not_found provision_not_supported : Exception
  utils cargo lxc other_runtime out_of_range : Exception
  configure forbidden_action not_implemented provision_error process_setup network ipc : Exception

pub data Outcome {ℓ} (A : Type ℓ) : Type ℓ where
  ok : A → Outcome A
  raised : Exception → Outcome A
  crashed : Outcome A

-- `catch (const std::runtime_error&)`: all but std::out_of_range, a std::logic_error.
abbrev pub is_runtime_error : Exception → Bool
is_runtime_error out_of_range = false
is_runtime_error _ = true

-- `catch (ServerException&)`
abbrev pub is_server_exception : Exception → Bool
is_server_exception invalid_zone_id = true
is_server_exception zone_operation = true
is_server_exception server_other = true
is_server_exception _ = false

abbrev pub is_invalid_zone_id : Exception → Bool
is_invalid_zone_id invalid_zone_id = true
is_invalid_zone_id _ = false

abbrev pub is_zone_operation : Exception → Bool
is_zone_operation zone_operation = true
is_zone_operation _ = false

abbrev pub is_cargo : Exception → Bool
is_cargo cargo = true
is_cargo _ = false

abbrev pub is_exception : Exception → Bool
is_exception e = true

abbrev pub Exec {ℓ} : Type ℓ → Type ℓ → Type ℓ
Exec S A = S → Outcome A × S

module _ {ℓ} {S A : Type ℓ} where
  unfoldable pub pure : A → Exec S A
  pure a s = (ok a, s)

  unfoldable pub throw : Exception → Exec S A
  throw e s = (raised e, s)

  unfoldable pub crash : Exec S A
  crash s = (crashed, s)

  unfoldable pub gets : (S → A) → Exec S A
  gets f s = (ok (f s), s)

  -- What an outcome that is computed already does.
  unfoldable pub of_outcome : Outcome A → Exec S A
  of_outcome r s = (r, s)

  abbrev pub handle : (Exception → Bool) → (Exception → Exec S A) → Outcome A → Exec S A
  handle p h (ok a) s = (ok a, s)
  handle p h (raised e) s = if p e then h e s else (raised e, s)
  handle p h crashed s = (crashed, s)

  -- try { m } catch (those with `p`) { h }
  unfoldable pub catch : (Exception → Bool) → Exec S A → (Exception → Exec S A) → Exec S A
  catch p m h s = let (r, s') = m s in handle p h r s'

module _ {S : Type 0} where
  unfoldable pub modify : (S → S) → Exec S (Unit {0})
  modify f s = (ok tt, f s)

  -- if (b) { m }
  unfoldable pub when : Bool → Exec S (Unit {0}) → Exec S (Unit {0})
  when true m s = m s
  when false m s = (ok tt, s)

  -- assert(b)
  unfoldable pub assert : Bool → Exec S (Unit {0})
  assert true s = (ok tt, s)
  assert false s = (crashed, s)

module _ {ℓ} {S A B : Type ℓ} where
  abbrev pub continue : Outcome A → (A → Exec S B) → Exec S B
  continue (ok a) f s = f a s
  continue (raised e) f s = (raised e, s)
  continue crashed f s = (crashed, s)

  infixl 10 ◌>>=◌ ◌>>◌
  -- A proof that opens this opens the actions above too.
  unfoldable pub ◌>>=◌ : Exec S A → (A → Exec S B) → Exec S B
  unfolding pure throw crash gets of_outcome catch modify when assert
  ◌>>=◌ m f s = let (r, s') = m s in continue r f s'

  abbrev pub ◌>>◌ : Exec S A → Exec S B → Exec S B
  m >> n = m >>= λ _. n

-- The state of a method is its object and the world that the external calls act on.
module _ {O W A : Type 0} where
  unfoldable pub on_world : Exec W A → Exec (O × W) A
  on_world m (o, w) = let (r, w') = m w in (r, (o, w'))

module _ {O P W A : Type 0} where
  -- A method of a part of the object.
  unfoldable pub on_part : (O → P) → (O → P → O) → Exec (P × W) A → Exec (O × W) A
  on_part part put m (o, w) = let (r, (p, w')) = m (part o, w) in (r, (put o p, w'))

-- How a sequence goes on from the outcome of its first part.
module _ {ℓ} {S A B : Type ℓ} (m : Exec S A) (f : A → Exec S B) (s : S) where
  pub bind-ok : {a : A} {s' : S} → m s ≡ (ok a, s') → (m >>= f) s ≡ f a s'
  unfolding ◌>>=◌
  bind-ok e = rw e

  pub bind-raised : {e : Exception} {s' : S} → m s ≡ (raised e, s') → (m >>= f) s ≡ (raised e, s')
  unfolding ◌>>=◌
  bind-raised h = rw h

  pub bind-crashed : {s' : S} → m s ≡ (crashed, s') → (m >>= f) s ≡ (crashed, s')
  unfolding ◌>>=◌
  bind-crashed h = rw h

-- A sequence that returned, taken apart.
module _ {ℓ} {S A B : Type ℓ} where
  continue-inv :
      (r : Outcome A) (f : A → Exec S B) (s : S) {b : B} {t : S}
      → continue r f s ≡ (ok b, t)
      → (a : A) × (r ≡ ok a) × (f a s ≡ (ok b, t))
  continue-inv (ok a) f s e = (a, refl, e)
  continue-inv (raised x) f s e = cc
  continue-inv crashed f s e = cc

  pub bind-inv :
      (m : Exec S A) (f : A → Exec S B) (s : S) {b : B} {t : S}
      → (m >>= f) s ≡ (ok b, t)
      → (a : A) × (u : S) × (m s ≡ (ok a, u)) × (f a u ≡ (ok b, t))
  unfolding ◌>>=◌
  bind-inv m f s e =
      let (a, p, q) = continue-inv (m s).0 f (m s).1 e in (a, (m s).1, λ i. (p i, (m s).1), q)
