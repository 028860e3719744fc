-- ===== src/Server/ProxyPolicy/Examples.antt =====
-- Runs of the proxy policy.
use vasum.Prelude.{◌≡◌, refl, ◌↔◌, true, false, [], ◌∷◌, lit, ◌==◌, Any}
use vasum.Server.ProxyPolicy.{ProxyCallRule, match, is_proxy_call_allowed}
use vasum.Server.ProxyPolicy.Rules.{Permits, is_proxy_call_allowed_iff}

abbrev power_rule : ProxyCallRule
power_rule = record {
  caller = lit "*";
  target = lit "host";
  target_bus_name = lit "org.tizen.system.deviced";
  target_object_path = lit "*";
  target_interface = lit "*";
  target_method = lit "*";
}

refuses_other_target :
    is_proxy_call_allowed
      (power_rule ∷ [])
      (lit "z1")
      (lit "z2")
      (lit "org.tizen.system.deviced")
      (lit "/")
      (lit "i")
      (lit "m")
    ≡ false
unfolding is_proxy_call_allowed match ◌==◌
refuses_other_target = refl

is_proxy_call_allowed_iff_example :
    (is_proxy_call_allowed
        (power_rule ∷ [])
        (lit "z1")
        (lit "host")
        (lit "b")
        (lit "/")
        (lit "i")
        (lit "m")
      ≡ true)
    ↔ Any
        (Permits (lit "z1") (lit "host") (lit "b") (lit "/") (lit "i") (lit "m"))
        (power_rule ∷ [])
is_proxy_call_allowed_iff_example =
    is_proxy_call_allowed_iff (power_rule ∷ []) (lit "z1") (lit "host") (lit "b") (lit "/")
      (lit "i") (lit "m")
