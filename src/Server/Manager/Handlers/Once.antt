-- ===== src/Server/Manager/Handlers/Once.antt =====
-- The handlers about zones as a whole (server/zones-manager.cpp) that set one result where they return.
use mathlib.Core.Path.{subst}
use vasum.Prelude.{
  ◌≡◌, refl, ap, ◌∷◌, Bool, true, false, List, Text, Option, none, some, if◌then◌else◌,
}
use vasum.Prelude.Exec.{
  Exception, Outcome, ok, raised, crashed, pure, catch, modify, when, handle, continue, ◌>>=◌, ◌>>◌,
}
use vasum.Prelude.Keeps.{Keeps-pure}
use vasum.Server.Host.{Host}
use vasum.Server.Zone.{Zone}
use vasum.Server.Manager.{Manager, Method, Reply, find_zone, reply, self}
use vasum.Server.Manager.Replies.{
  Quiet, quiet_rules, Quiet-self, Answered, Answers, answers_rules, Answers-reply, Answers-bind,
  Answers-found,
}
use vasum.Server.Manager.Queue.Replies.{Answers-try_add_task}
use vasum.Server.Manager.Focus.Replies.{
  Quiet-is_running_in, Quiet-focus_internal, Quiet-refocus, Quiet-get_running_foreground,
}
use vasum.Server.Manager.Create.Replies.{Quiet-create_zone}
use vasum.Server.Manager.Handlers.{
  with_zone, state_text, handle_get_zone_ids_call, handle_get_active_zone_id_call,
  handle_get_zone_info_call, handle_set_active_zone_call, handle_switch_to_default_call,
  handle_create_zone_call, handle_shutdown_zone_call, handle_start_zone_call, handle_lock_zone_call,
  handle_unlock_zone_call,
}

module _ {W : Type 0} where
  pub Quiet-found :
      {A : Type 0} (o : Option Zone) (m : Method W A) (f : Zone → Method W A)
      → Quiet m
      → ((z : Zone) → Quiet (f z))
      → Quiet (elim o as (λ x. Method W A) [ none ↦ m | some z ↦ f z ])
  Quiet-found none m f qm qf = qm
  Quiet-found (some z) m f qm qf = qf z

  pub Answers-with_zone :
      (id : Text) (body : Zone → Method W (Unit {0}))
      → ((z : Zone) → Answers (body z))
      → Answers (with_zone id body)
  unfolding with_zone
  Answers-with_zone id body k =
      Answers-bind self _ Quiet-self
        (λ s. Answers-found (find_zone id s.zones) _ body (Answers-reply _) k)

module _ {W : Type 0} (h : Host W) (caller : Text) where
  pub Answers-get_zone_ids : Answers (handle_get_zone_ids_call h caller)
  unfolding handle_get_zone_ids_call
  Answers-get_zone_ids = search answers_rules depth 12

  pub Answers-get_active_zone_id : Answers (handle_get_active_zone_id_call h caller)
  unfolding handle_get_active_zone_id_call
  Answers-get_active_zone_id = search (answers_rules, Quiet-get_running_foreground) depth 12

  Quiet-state_text : (id : Text) → Quiet (state_text h caller id)
  unfolding state_text
  Quiet-state_text id replies = search quiet_rules depth 20

  pub Answers-get_zone_info : (id : Text) → Answers (handle_get_zone_info_call h caller id)
  unfolding handle_get_zone_info_call
  Answers-get_zone_info id = search (answers_rules, Answers-with_zone, Quiet-state_text) depth 16

  pub Answers-set_active_zone : (id : Text) → Answers (handle_set_active_zone_call h caller id)
  unfolding handle_set_active_zone_call
  Answers-set_active_zone id =
      search (answers_rules, Answers-try_add_task, Answers-with_zone, Quiet-focus_internal) depth 20

  pub Answers-create_zone :
      (id template : Text) → Answers (handle_create_zone_call h caller id template)
  unfolding handle_create_zone_call
  Answers-create_zone id template =
      search (answers_rules, Answers-try_add_task, Quiet-create_zone) depth 20

  pub Answers-shutdown_zone : (id : Text) → Answers (handle_shutdown_zone_call h caller id)
  unfolding handle_shutdown_zone_call
  Answers-shutdown_zone id =
      search (answers_rules, Answers-try_add_task, Answers-with_zone, Quiet-refocus) depth 20

  pub Answers-start_zone : (id : Text) → Answers (handle_start_zone_call h caller id)
  unfolding handle_start_zone_call
  Answers-start_zone id =
      search (answers_rules, Answers-try_add_task, Answers-with_zone, Quiet-focus_internal) depth 20

  pub Answers-switch_to_default : Answers (handle_switch_to_default_call h caller)
  unfolding handle_switch_to_default_call
  Answers-switch_to_default = Answers-try_add_task caller _ (
      Answers-bind self _ Quiet-self λ s.
        Answers-bind _ _
          (Quiet-found (find_zone s.active_zone_id s.zones) (pure false) _ (λ replies. Keeps-pure _)
            λ active.
              Quiet-found (find_zone s.dynamic.default_id s.zones) (pure false) _
                (λ replies. Keeps-pure _)
                λ default replies. search (quiet_rules, Quiet-is_running_in) depth 8)
          (λ allowed. search (answers_rules, Quiet-focus_internal) depth 16))

-- The methods that hand on whether the result is still to be set: where they say no, or throw, they set none or one.
abbrev Decided : Outcome Bool → List Reply → List Reply → Type 0
Decided (ok true) before after = after ≡ before
Decided (ok false) before after = (r : Reply) × (after ≡ r ∷ before)
Decided (raised e) before after = after ≡ before
Decided crashed before after = after ≡ before

record Decides {W : Type 0} (m : Method W Bool) : Type 0 where
  pub decided : (s : Manager × W) → Decided (m s).0 s.0.replies (m s).1.0.replies

module _ {W : Type 0} where
  Decides-pure : Decides {W = W} (pure true)
  unfolding pure
  Decides-pure = record { decided = λ s. refl }

  continue-Decided :
      {A : Type 0} (r : Outcome A) (f : A → Method W Bool) (s : Manager × W) (replies : List Reply)
      → s.0.replies ≡ replies
      → ((a : A) → Decides (f a))
      → Decided (continue r f s).0 replies (continue r f s).1.0.replies
  continue-Decided (ok a) f s replies same k =
      subst (λ before. Decided (f a s).0 before (f a s).1.0.replies) same ((k a).decided s)
  continue-Decided (raised e) f s replies same k = same
  continue-Decided crashed f s replies same k = same

  Decides-bind :
      {A : Type 0} (m : Method W A) (f : A → Method W Bool)
      → Quiet m
      → ((a : A) → Decides (f a))
      → Decides (m >>= f)
  unfolding ◌>>=◌
  Decides-bind m f quiet k = record {
    decided =
        λ s. continue-Decided (m s).0 f (m s).1 s.0.replies ((quiet s.0.replies).after s refl) k;
  }

  handle-Decided :
      (p : Exception → Bool) (reason : Reply) (r : Outcome Bool) (s : Manager × W)
      (replies : List Reply)
      → Decided r replies s.0.replies
      → Decided
          (handle p (λ e. reply reason >> pure false) r s).0
          replies
          (handle p (λ e. reply reason >> pure false) r s).1.0.replies
  unfolding ◌>>=◌ reply
  handle-Decided p reason (ok true) s replies d = d
  handle-Decided p reason (ok false) s replies d = d
  handle-Decided p reason (raised e) s replies d = pick (p e)
    where
      pick :
          (b : Bool)
          → Decided
              (if b then (reply reason >> pure false) s else (raised e, s)).0
              replies
              (if b then (reply reason >> pure false) s else (raised e, s)).1.0.replies
      pick true = (reason, ap (◌∷◌ reason) d)
      pick false = d
  handle-Decided p reason crashed s replies d = d

  Decides-catch :
      (p : Exception → Bool) (m : Method W Bool) (reason : Reply)
      → Decides m
      → Decides (catch p m (λ e. reply reason >> pure false))
  unfolding catch
  Decides-catch p m reason k = record {
    decided = λ s. handle-Decided p reason (m s).0 (m s).1 s.0.replies (k.decided s);
  }

  when-Answered :
      (r : Outcome Bool) (last : Reply) (s : Manager × W) (replies : List Reply)
      → Decided r replies s.0.replies
      → Answered
          (continue r (λ b. when b (reply last)) s).0
          replies
          (continue r (λ b. when b (reply last)) s).1.0.replies
  unfolding when reply modify
  when-Answered (ok true) last s replies d = (last, ap (◌∷◌ last) d)
  when-Answered (ok false) last s replies d = d
  when-Answered (raised e) last s replies d = d
  when-Answered crashed last s replies d = d

  Answers-when :
      (m : Method W Bool) (last : Reply) → Decides m → Answers (m >>= λ b. when b (reply last))
  unfolding ◌>>=◌
  Answers-when m last k = record {
    answered = λ s. when-Answered (m s).0 last (m s).1 s.0.replies (k.decided s);
  }

ruleset decides_rules = (
  answers_rules, Answers-try_add_task, Answers-with_zone, Decides-pure, Decides-bind, Decides-catch,
  Answers-when,
)

module _ {W : Type 0} (h : Host W) (caller : Text) where
  pub Answers-unlock_zone : (id : Text) → Answers (handle_unlock_zone_call h caller id)
  unfolding handle_unlock_zone_call
  Answers-unlock_zone id = search decides_rules depth 24

  pub Answers-lock_zone : (id : Text) → Answers (handle_lock_zone_call h caller id)
  unfolding handle_lock_zone_call
  Answers-lock_zone id = search (decides_rules, Quiet-refocus) depth 24
