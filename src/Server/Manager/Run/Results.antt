-- ===== src/Server/Manager/Run/Results.antt =====
-- What a start of the manager that returns (start of server/zones-manager.cpp) leaves in the list of the zones.
use mathlib.Core.Path.{subst}
use mathlib.Core.List.{append_assoc, append-nil}
use vasum.Prelude.{◌≡◌, refl, sym, ap, true, List, [], ◌∷◌, ◌++◌, Text}
use vasum.Prelude.Exec.{ok, ◌>>=◌}
use vasum.Prelude.Keeps.{Keeps-pure, Settles, Settles-Ends, Settles-bind}
use vasum.Prelude.Turns.{Turns, Turns-Keeps, Turns-bind, Turns-before, Turns-after}
use vasum.Server.Host.{Host}
use vasum.Server.Manager.{Manager, Method, self}
use vasum.Server.Manager.Shape.{ids, Shape, shape_rules, Shape-on_world}
use vasum.Server.Manager.Create.Keeps.{Shape-update_default_id}
use vasum.Server.Manager.Create.Defaults.{HasDefault, Ends-update_default_id}
use vasum.Server.Manager.Create.Results.{Stands, insert_zone-Turns}
use vasum.Server.Manager.Run.Keeps.{Shape-set_is_running}
use vasum.Server.Manager.Run.{template_path_of, insert_all, start}

-- The rest may use what is true of the manager that it reads.
Turns-self :
    {W A : Type 0} {P Q : Manager × W → Type 0} (rest : Manager → Method W A)
    → ((s : Manager × W) → P s → Turns P Q (rest s.0))
    → Turns P Q (self >>= rest)
unfolding self ◌>>=◌
Turns-self rest k = record { outcome = λ s t a p e. (k s p).outcome s t a p e }

module _ {W : Type 0} (h : Host W) (records : List Text) (lock : Text) where
  insert_all-Turns :
      (is new : List Text)
      → Turns
          (Shape (Stands is records lock))
          (Shape (Stands (is ++ new) records lock))
          (insert_all h new)
  unfolding insert_all template_path_of
  insert_all-Turns is [] = rw (append-nil is) (Turns-Keeps _ (Keeps-pure tt))
  insert_all-Turns is (id ∷ new) = Turns-before _ _ (search shape_rules depth 12) (λ path.
      Turns-bind _ _ (insert_zone-Turns h is records lock id path) (λ _.
        subst
          (λ all.
            Turns (Shape (Stands (is ++ id ∷ []) records lock)) (Shape (Stands all records lock))
              (insert_all h new))
          (append_assoc is (id ∷ []) new) (insert_all-Turns (is ++ id ∷ []) new)))

  start-Turns :
      Turns (Shape (Stands [] records lock)) (Shape (Stands records records lock)) (start h)
  unfolding start
  start-Turns =
      let here = Stands [] records lock in
      let there = Stands records records lock in
      Turns-before _ _ (Shape-set_is_running h here true) (λ _. Turns-self _ (λ s p.
        Turns-before _ _ (Shape-on_world here _) (λ _.
          Turns-after _ _
            (subst (λ all. Turns (Shape here) (Shape there) (insert_all h all)) (sym p.1)
              (insert_all-Turns [] records))
            (λ _. Shape-update_default_id h there))))

-- A start of a manager without zones, as the constructor leaves it, that returns, makes one zone for each of the recorded
-- ids, in their order, and leaves the records and the lock of the queue as they were.
pub start-Stands :
    {W : Type 0} (h : Host W) (s : Manager × W)
    → s.0.zones ≡ []
    → (start h s).0 ≡ ok tt
    → Shape (Stands s.0.dynamic.zone_ids s.0.dynamic.zone_ids s.0.exclusive_id_lock) (start h s).1
start-Stands h s none_yet e =
    (start-Turns h s.0.dynamic.zone_ids s.0.exclusive_id_lock).outcome s _ tt
      (ap ids none_yet, refl, refl) (λ i. (e i, (start h s).1))

start-Settles : {W : Type 0} (h : Host W) → Settles (HasDefault {W = W}) (start h)
unfolding start
start-Settles h = search (Settles-bind, Settles-Ends, Ends-update_default_id) depth 16

-- Where a start returns, the default id is that of a zone, or else there are no zones and it is empty.
pub start-HasDefault :
    {W : Type 0} (h : Host W) (s : Manager × W) → (start h s).0 ≡ ok tt → HasDefault (start h s).1
start-HasDefault h s e = (start-Settles h).settled s _ tt (λ i. (e i, (start h s).1))
