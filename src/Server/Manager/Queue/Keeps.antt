-- ===== src/Server/Manager/Queue/Keeps.antt =====
-- What the operations of the queue (server/zones-manager.cpp) keep.
use vasum.Prelude.{List, Text}
use vasum.Prelude.Keeps.{Keeps, Keeps-modify}
use vasum.Server.Manager.{Method}
use vasum.Server.Manager.Shape.{Shape, shape_rules}
use vasum.Server.Manager.Queue.{
  set_lock, try_add_task, handle_lock_queue_call, handle_unlock_queue_call, disconnected_callback,
}

module _ {W : Type 0} (P : List Text → List Text → Text → Type 0) (caller : Text) where
  pub Shape-try_add_task :
      (task : Method W (Unit {0}))
      → Keeps (Shape P) task
      → Keeps (Shape P) (try_add_task caller task)
  unfolding try_add_task
  Shape-try_add_task task k = search shape_rules depth 16

  module _
      (any_lock : (is records : List Text) (lock lock' : Text)
        → P is records lock
        → P is records lock') where
    Shape-set_lock : (id : Text) → Keeps (Shape {W = W} P) (set_lock id)
    Shape-set_lock id = Keeps-modify _ (λ s p. any_lock _ _ _ _ p)

    pub Shape-lock_queue : Keeps (Shape {W = W} P) (handle_lock_queue_call caller)
    unfolding handle_lock_queue_call
    Shape-lock_queue = search (shape_rules, Shape-set_lock) depth 16

    pub Shape-unlock_queue : Keeps (Shape {W = W} P) (handle_unlock_queue_call caller)
    unfolding handle_unlock_queue_call
    Shape-unlock_queue = search (shape_rules, Shape-set_lock) depth 16

    pub Shape-disconnected : Keeps (Shape {W = W} P) (disconnected_callback caller)
    unfolding disconnected_callback
    Shape-disconnected = search (shape_rules, Shape-set_lock) depth 16
