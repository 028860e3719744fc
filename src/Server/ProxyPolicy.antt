-- ===== src/Server/ProxyPolicy.antt =====
-- Which dbus proxy calls the daemon forwards (server/proxy-call-policy.cpp, server/proxy-call-config.hpp).
pub mod Rules
pub mod Examples
use vasum.Prelude.{Bool, true, false, ◌&&◌, ◌||◌, List, [], ◌∷◌, Text, lit, ◌==◌, if◌then◌else◌}

-- A single allow rule.
pub record ProxyCallRule : Type 0 where
  pub caller : Text
  pub target : Text
  pub target_bus_name : Text
  pub target_object_path : Text
  pub target_interface : Text
  pub target_method : Text

abbrev pub any_value : Text
any_value = lit "*"

pub match : Text → Text → Bool
match rule value = rule == any_value || rule == value

pub is_proxy_call_allowed : List ProxyCallRule → Text → Text → Text → Text → Text → Text → Bool
is_proxy_call_allowed [] caller target bus_name object_path interface method = false
is_proxy_call_allowed (rule ∷ rules) caller target bus_name object_path interface method =
    let rest = is_proxy_call_allowed rules caller target bus_name object_path interface method in
    if match rule.caller caller
      && match rule.target target
      && match rule.target_bus_name bus_name
      && match rule.target_object_path object_path
      && match rule.target_interface interface
      && match rule.target_method method
    then true
    else rest
