-- ===== src/Server/Manager/Queue/Replies.antt =====
-- The gate before a task (tryAddTask of server/zones-manager.cpp) sets one result where the task does, and locking and
-- unlocking the queue set one.
use vasum.Prelude.{Text}
use vasum.Prelude.Exec.{modify}
use vasum.Server.Manager.{Method}
use vasum.Server.Manager.Replies.{Quiet, Answers, answers_rules}
use vasum.Server.Manager.Queue.{
  try_add_task, set_lock, handle_lock_queue_call, handle_unlock_queue_call,
}

module _ {W : Type 0} where
  pub Answers-try_add_task :
      (caller : Text) (task : Method W (Unit {0}))
      → Answers task
      → Answers (try_add_task caller task)
  unfolding try_add_task
  Answers-try_add_task caller task k = search answers_rules depth 12

  Quiet-set_lock : (id : Text) → Quiet {W = W} (set_lock id)
  unfolding modify
  Quiet-set_lock id replies = record { after = λ s p. p }

  pub Answers-lock_queue : (caller : Text) → Answers {W = W} (handle_lock_queue_call caller)
  unfolding handle_lock_queue_call
  Answers-lock_queue caller = search (answers_rules, Quiet-set_lock) depth 16

  pub Answers-unlock_queue : (caller : Text) → Answers {W = W} (handle_unlock_queue_call caller)
  unfolding handle_unlock_queue_call
  Answers-unlock_queue caller = search (answers_rules, Quiet-set_lock) depth 16
