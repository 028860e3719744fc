-- ===== src/Server/ProxyPolicy/Rules.antt =====
-- The decision of server/proxy-call-policy.cpp against a description by propositions.
use vasum.Prelude.{
  ◌≡◌, ◌⊎◌, inl, inr, ◌↔◌, Bool, true, ◌&&◌, List, [], ◌∷◌, Text, eq_iff, Any, arith, Bool-cases,
}
use vasum.Server.ProxyPolicy.{ProxyCallRule, any_value, match, is_proxy_call_allowed}

-- A field of a rule admits a value: by the wildcard, or by the value itself.
abbrev pub Admits : Text → Text → Type 0
Admits rule value = (rule ≡ any_value) ⊎ (rule ≡ value)

-- A rule permits a call: each of its six fields admits the call's.
pub record Permits (c t b o i m : Text) (r : ProxyCallRule) : Type 0 where
  pub caller : Admits r.caller c
  pub target : Admits r.target t
  pub bus_name : Admits r.target_bus_name b
  pub object_path : Admits r.target_object_path o
  pub interface : Admits r.target_interface i
  pub method : Admits r.target_method m

match→Admits : (rule value : Text) → match rule value ≡ true → Admits rule value
unfolding match
match→Admits rule value h = ground (arith, eq_iff rule any_value, eq_iff rule value)

Admits→match : (rule value : Text) → Admits rule value → match rule value ≡ true
unfolding match
Admits→match rule value h = ground (arith, eq_iff rule any_value, eq_iff rule value)

&&→both : (a b : Bool) → (a && b) ≡ true → (a ≡ true) × (b ≡ true)
&&→both a b h = ground arith

module _ (c t b o i m : Text) where
  abbrev permits : ProxyCallRule → Bool
  permits r =
      match r.caller c
      && match r.target t
      && match r.target_bus_name b
      && match r.target_object_path o
      && match r.target_interface i
      && match r.target_method m

  permits→Permits : (r : ProxyCallRule) → permits r ≡ true → Permits c t b o i m r
  permits→Permits r h = record {
    caller = match→Admits _ _ (ground arith);
    target = match→Admits _ _ (ground arith);
    bus_name = match→Admits _ _ (ground arith);
    object_path = match→Admits _ _ (ground arith);
    interface = match→Admits _ _ (ground arith);
    method = match→Admits _ _ (ground arith);
  }

  Permits→permits : (r : ProxyCallRule) → Permits c t b o i m r → permits r ≡ true
  Permits→permits r p = rw (
    Admits→match _ _ p.caller,
    Admits→match _ _ p.target,
    Admits→match _ _ p.bus_name,
    Admits→match _ _ p.object_path,
    Admits→match _ _ p.interface,
    Admits→match _ _ p.method,
  )

  sound :
      (rules : List ProxyCallRule)
      → is_proxy_call_allowed rules c t b o i m ≡ true
      → Any (Permits c t b o i m) rules
  unfolding is_proxy_call_allowed
  sound [] h = cc
  sound (r ∷ rules) h = elim (Bool-cases (permits r)) [
    | inl e ↦ inl (permits→Permits r e)
    | inr e ↦ inr (sound rules (ground arith))
  ]

  complete :
      (rules : List ProxyCallRule)
      → Any (Permits c t b o i m) rules
      → is_proxy_call_allowed rules c t b o i m ≡ true
  unfolding is_proxy_call_allowed
  complete [] h = elim h [ ]
  complete (r ∷ rules) (inl p) = rw (Permits→permits r p)
  complete (r ∷ rules) (inr q) = ground (arith, complete rules q)

-- A proxy call is allowed exactly when some rule of the policy has, in each of its six fields, the
-- wildcard or the call's value.
pub is_proxy_call_allowed_iff :
    (rules : List ProxyCallRule) (c t b o i m : Text)
    → (is_proxy_call_allowed rules c t b o i m ≡ true) ↔ Any (Permits c t b o i m) rules
is_proxy_call_allowed_iff rules c t b o i m = (sound c t b o i m rules, complete c t b o i m rules)
