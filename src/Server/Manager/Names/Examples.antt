-- ===== src/Server/Manager/Names/Examples.antt =====
-- The theorem on the clean-up (server/zones-manager.cpp), at a host that logs it.
use vasum.Prelude.{◌≢◌, sym, ap, arith, inl, false, List, [], ◌∷◌, ◌++◌, Text, lit, All, get_or}
use vasum.Prelude.Exec.{ok}
use vasum.Server.Host.{Host}
use vasum.Server.HostSample.{sample_host, all_running}
use vasum.Server.Manager.Names.{clean_up_unknowns_from_root}
use vasum.Server.Manager.Names.CleanUp.{clean_up_unknowns_from_root-Known}

-- The zones' path has the zone a, an unknown directory, and one that is hidden.
abbrev host : Host (List Text)
host = record (sample_host all_running) {
  list_directory = λ path calls. (ok (lit "a" ∷ lit "old" ∷ lit ".x" ∷ []), calls);
}

-- The zone a was not renamed.
abbrev Spared : List Text → Type 0
Spared calls = All (λ c. c ≢ lit "rename a") calls

not_renamed : (name : Text) → lit "remove " ++ name ≢ lit "rename a"
not_renamed name e = omega (arith, ap (λ t. get_or t 2 0) e)

renames_other : (name : Text) → name ≢ lit "a" → lit "rename " ++ name ≢ lit "rename a"
renames_other name other e = other cc

clean_up_unknowns_from_root-Known_example :
    Spared (clean_up_unknowns_from_root host (lit "/zones") (lit "a" ∷ []) false []).1
clean_up_unknowns_from_root-Known_example =
    clean_up_unknowns_from_root-Known host (lit "/zones") Spared (lit "a" ∷ []) false []
      (record { after = λ s p. p }) (λ name dot. record { after = λ s p. (not_renamed name, p) })
      (λ name unknown. record {
        after = λ s p. (renames_other name (λ e. unknown (inl (sym e))), p);
      })
      tt
