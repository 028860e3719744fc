-- ===== src/Server/Manager/Queue/Exclusion.antt =====
-- What a client that does not hold the exclusive lock of the queue (server/zones-manager.cpp) can do to it: nothing.
use vasum.Prelude.{
  ◌⊎◌, inl, inr, eq_iff, refl, Bool-cases, ◌==◌, ◌≡◌, ◌≢◌, List, ◌∷◌, Text, ne_false,
}
use vasum.Prelude.Exec.{ok, ◌>>=◌}
use vasum.Prelude.Keeps.{Keeps}
use vasum.Server.Manager.{Manager, Method, invalid_connection_id, error, queue, self, reply}
use vasum.Server.Manager.Shape.{Shape}
use vasum.Server.Manager.Queue.{
  try_add_task, handle_lock_queue_call, handle_unlock_queue_call, disconnected_callback,
}

-- The lock is the holder's.
abbrev pub HeldBy : Text → List Text → List Text → Text → Type 0
HeldBy holder is records lock = lock ≡ holder

module _ {W : Type 0} (holder : Text) (held : holder ≢ invalid_connection_id) where
  pub lock_queue-foreign :
      (caller : Text)
      → holder ≢ caller
      → Keeps (Shape {W = W} (HeldBy holder)) (handle_lock_queue_call caller)
  unfolding handle_lock_queue_call ◌>>=◌ self reply
  lock_queue-foreign caller other = record {
    after = λ s p. rw (p, ne_false holder caller other, ne_false holder invalid_connection_id held);
  }

  pub unlock_queue-foreign :
      (caller : Text)
      → holder ≢ caller
      → Keeps (Shape {W = W} (HeldBy holder)) (handle_unlock_queue_call caller)
  unfolding handle_unlock_queue_call ◌>>=◌ self reply
  unlock_queue-foreign caller other = record {
    after = λ s p. rw (p, ne_false holder invalid_connection_id held, ne_false holder caller other);
  }

  pub disconnected-foreign :
      (caller : Text)
      → holder ≢ caller
      → Keeps (Shape {W = W} (HeldBy holder)) (disconnected_callback caller)
  unfolding disconnected_callback ◌>>=◌ self
  disconnected-foreign caller other = record { after = λ s p. rw (p, ne_false holder caller other) }

pub try_add_task-refused :
    {W : Type 0} (caller : Text) (task : Method W (Unit {0})) (s : Manager) (w : W)
    → s.exclusive_id_lock ≢ invalid_connection_id
    → s.exclusive_id_lock ≢ caller
    → try_add_task caller task (s, w) ≡ (ok tt, (record s { replies = error queue ∷ s.replies }, w))
unfolding try_add_task ◌>>=◌ self reply
try_add_task-refused caller task s w held other = rw (
  ne_false s.exclusive_id_lock invalid_connection_id held,
  ne_false s.exclusive_id_lock caller other,
)

pub try_add_task-admitted :
    {W : Type 0} (caller : Text) (task : Method W (Unit {0})) (s : Manager) (w : W)
    → (s.exclusive_id_lock ≡ invalid_connection_id) ⊎ (s.exclusive_id_lock ≡ caller)
    → try_add_task caller task (s, w) ≡ task (s, w)
unfolding try_add_task ◌>>=◌ self
try_add_task-admitted caller task s w (inl free) =
    rw ((eq_iff s.exclusive_id_lock invalid_connection_id).1 free) refl
try_add_task-admitted caller task s w (inr own) =
    elim (Bool-cases (s.exclusive_id_lock == invalid_connection_id)) [
      | inl free ↦ rw free refl
      | inr held ↦ rw (held, (eq_iff s.exclusive_id_lock caller).1 own) refl
    ]
