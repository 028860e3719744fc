-- ===== src/Server/Manager/Queue.antt =====
-- The exclusive lock of the task queue (server/zones-manager.cpp): locking, unlocking, disconnecting, and the gate
-- before a task. The worker of the utils library runs one task after another; here an admitted task runs at once.
pub mod Exclusion
pub mod Keeps
pub mod Replies
use vasum.Prelude.{Bool, true, false, ◌&&◌, List, [], ◌∷◌, Text, ◌==◌, not, if◌then◌else◌}
use vasum.Prelude.Exec.{Exec, pure, modify, when, ◌>>=◌, ◌>>◌}
use vasum.Server.Manager.{
  Manager, Method, Reply, void, error, ErrorName, queue, invalid_connection_id, reply, self,
}

module _ {W : Type 0} where
  abbrev pub set_lock : Text → Method W (Unit {0})
  set_lock id = modify (λ s. (record s.0 { exclusive_id_lock = id }, s.1))

  pub handle_lock_queue_call : Text → Method W (Unit {0})
  handle_lock_queue_call caller = do
    s ← self
    if s.exclusive_id_lock == caller
        then reply (error queue)
        else if not (s.exclusive_id_lock == invalid_connection_id)
        then reply (error queue)
        else set_lock caller >> reply void

  pub handle_unlock_queue_call : Text → Method W (Unit {0})
  handle_unlock_queue_call caller = do
    s ← self
    if s.exclusive_id_lock == invalid_connection_id
        then reply (error queue)
        else if not (s.exclusive_id_lock == caller)
        then reply (error queue)
        else set_lock invalid_connection_id >> reply void

  pub disconnected_callback : Text → Method W (Unit {0})
  disconnected_callback id = do
    s ← self
    when (s.exclusive_id_lock == id) (set_lock invalid_connection_id)

  pub try_add_task : Text → Method W (Unit {0}) → Method W (Unit {0})
  try_add_task caller task = do
    s ← self
    if not (s.exclusive_id_lock == invalid_connection_id) && not (s.exclusive_id_lock == caller)
        then reply (error queue)
        else task
