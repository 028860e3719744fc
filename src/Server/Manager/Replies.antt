-- ===== src/Server/Manager/Replies.antt =====
-- How many results an operation of server/zones-manager.cpp sets: none, or one where it returns.
use mathlib.Core.Path.{subst}
use vasum.Prelude.{◌≡◌, refl, Bool, true, false, List, ◌∷◌, Text, Option, none, some, if◌then◌else◌}
use vasum.Prelude.Exec.{
  Exception, Outcome, ok, raised, crashed, Exec, gets, modify, handle, catch, continue, ◌>>=◌,
  on_world,
}
use vasum.Prelude.Keeps.{Keeps, keeps_rules}
use vasum.Server.Zone.{Zone}
use vasum.Server.Manager.{
  Manager, Method, Reply, on_zones, on_zone, for_each_zone, reply, set_active_zone_id, self,
}

-- The results that were set are these.
abbrev pub HasReplies : {W : Type 0} → List Reply → Manager × W → Type 0
HasReplies replies s = s.0.replies ≡ replies

-- The operation sets no result, however it ends.
abbrev pub Quiet : {W A : Type 0} → Method W A → Type 0
Quiet {W} m = (replies : List Reply) → Keeps (HasReplies {W = W} replies) m

module _ {W : Type 0} where
  pub Quiet-on_zone : {A : Type 0} (id : Text) (m : Exec (Zone × W) A) → Quiet (on_zone id m)
  unfolding on_zone on_zones
  Quiet-on_zone id m replies = record { after = λ s p. p }

  pub Quiet-for_each_zone : (m : Zone → Exec (Zone × W) (Unit {0})) → Quiet (for_each_zone m)
  unfolding for_each_zone on_zones
  Quiet-for_each_zone m replies = record { after = λ s p. p }

  pub Quiet-set_active_zone_id : (id : Text) → Quiet (set_active_zone_id {W = W} id)
  unfolding set_active_zone_id modify
  Quiet-set_active_zone_id id replies = record { after = λ s p. p }

  pub Quiet-self : Quiet (self {W = W})
  unfolding self gets
  Quiet-self replies = record { after = λ s p. p }

  pub Quiet-on_world : {A : Type 0} (m : Exec W A) → Quiet {W = W} (on_world m)
  unfolding on_world
  Quiet-on_world m replies = record { after = λ s p. p }

pub ruleset quiet_rules = (
  keeps_rules, Quiet-on_zone, Quiet-for_each_zone, Quiet-set_active_zone_id, Quiet-self,
  Quiet-on_world,
)

-- One more result, where an operation returned; the same ones, where it did not.
abbrev pub Answered : {A : Type 0} → Outcome A → List Reply → List Reply → Type 0
Answered (ok a) before after = (r : Reply) × (after ≡ r ∷ before)
Answered (raised e) before after = after ≡ before
Answered crashed before after = after ≡ before

pub record Answers {W A : Type 0} (m : Method W A) : Type 0 where
  pub answered : (s : Manager × W) → Answered (m s).0 s.0.replies (m s).1.0.replies

module _ {W : Type 0} where
  pub Answers-reply : (r : Reply) → Answers {W = W} (reply r)
  unfolding reply modify
  Answers-reply r = record { answered = λ s. (r, refl) }

  pub Answers-if :
      (b : Bool) (m n : Method W (Unit {0})) → Answers m → Answers n → Answers (if b then m else n)
  Answers-if true m n am an = am
  Answers-if false m n am an = an

  pub Answers-found :
      (o : Option Zone) (m : Method W (Unit {0})) (f : Zone → Method W (Unit {0}))
      → Answers m
      → ((z : Zone) → Answers (f z))
      → Answers (elim o as (λ x. Method W (Unit {0})) [ none ↦ m | some z ↦ f z ])
  Answers-found none m f am af = am
  Answers-found (some z) m f am af = af z

  continue-Answered :
      {A B : Type 0} (r : Outcome A) (f : A → Method W B) (s : Manager × W) (replies : List Reply)
      → s.0.replies ≡ replies
      → ((a : A) → Answers (f a))
      → Answered (continue r f s).0 replies (continue r f s).1.0.replies
  continue-Answered (ok a) f s replies same k =
      subst (λ before. Answered (f a s).0 before (f a s).1.0.replies) same ((k a).answered s)
  continue-Answered (raised e) f s replies same k = same
  continue-Answered crashed f s replies same k = same

  -- Where the first part sets no result, the rest sets the one.
  pub Answers-bind :
      {A B : Type 0} (m : Method W A) (f : A → Method W B)
      → Quiet m
      → ((a : A) → Answers (f a))
      → Answers (m >>= f)
  unfolding ◌>>=◌
  Answers-bind m f quiet k = record {
    answered =
        λ s. continue-Answered (m s).0 f (m s).1 s.0.replies ((quiet s.0.replies).after s refl) k;
  }

  handle-Answered :
      {A : Type 0} (p : Exception → Bool) (h : Exception → Method W A) (r : Outcome A)
      (s : Manager × W) (replies : List Reply)
      → Answered r replies s.0.replies
      → ((e : Exception) → Answers (h e))
      → Answered (handle p h r s).0 replies (handle p h r s).1.0.replies
  handle-Answered p h (ok a) s replies done k = done
  handle-Answered p h (raised e) s replies same k = pick (p e)
    where
      pick :
          (b : Bool)
          → Answered
              (if b then h e s else (raised e, s)).0
              replies
              (if b then h e s else (raised e, s)).1.0.replies
      pick true =
          subst (λ before. Answered (h e s).0 before (h e s).1.0.replies) same ((k e).answered s)
      pick false = same
  handle-Answered p h crashed s replies same k = same

  pub Answers-catch :
      {A : Type 0} (p : Exception → Bool) (m : Method W A) (h : Exception → Method W A)
      → Answers m
      → ((e : Exception) → Answers (h e))
      → Answers (catch p m h)
  unfolding catch
  Answers-catch p m h am k = record {
    answered = λ s. handle-Answered p h (m s).0 (m s).1 s.0.replies (am.answered s) k;
  }

pub ruleset answers_rules =
    (quiet_rules, Answers-reply, Answers-if, Answers-found, Answers-bind, Answers-catch)
