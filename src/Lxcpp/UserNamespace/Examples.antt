-- ===== src/Lxcpp/UserNamespace/Examples.antt =====
-- Maps of ids (libs/lxcpp/userns-config.cpp) at concrete inputs.
use vasum.Prelude.{ℕ, ◌+◌, ◌-◌, ◌≡◌, refl, inl, List, [], ◌∷◌, All, arith}
use vasum.Prelude.Exec.{ok}
use vasum.Lxcpp.UserNamespace.{IdRange, add_map, conv_cont_to_host_id}
use vasum.Lxcpp.UserNamespace.Ranges.{IsRange}
use vasum.Lxcpp.UserNamespace.Injective.{
  AllApart, add_map-AllApart, conv_cont_to_host_id_injective, add_map_shares,
}

abbrev low : IdRange
low = record { cont_id = 0; host_id = 100000; num = 100 }

abbrev high : IdRange
high = record { cont_id = 1000; host_id = 200000; num = 100 }

-- The host's side begins below that of `low` and reaches over it.
abbrev wide : IdRange
wide = record { cont_id = 100; host_id = 99990; num = 50 }

abbrev maps : List IdRange
maps = low ∷ high ∷ []

low-IsRange : IsRange low
low-IsRange = record { some_id = omega arith; cont_end = omega arith; host_end = omega arith }

high-IsRange : IsRange high
high-IsRange = record { some_id = omega arith; cont_end = omega arith; host_end = omega arith }

wide-IsRange : IsRange wide
wide-IsRange = record { some_id = omega arith; cont_end = omega arith; host_end = omega arith }

add_high : add_map (low ∷ []) high ≡ ok maps
unfolding add_map
add_high = refl

conv_third : conv_cont_to_host_id maps 1003 ≡ ok 200003
unfolding conv_cont_to_host_id
conv_third = refl

maps-AllApart : AllApart maps
maps-AllApart = ((record { cont = inl (omega arith); host = inl (omega arith) }, tt), (tt, tt))

add_map-AllApart_example : All IsRange maps × AllApart maps
add_map-AllApart_example =
    add_map-AllApart (low ∷ []) high maps (low-IsRange, tt) (tt, tt) (omega arith) (omega arith)
      (((λ h. omega arith), (λ h. omega arith)), tt) add_high

conv_cont_to_host_id_injective_example : ◌≡◌ {A = ℕ} 1003 1003
conv_cont_to_host_id_injective_example =
    conv_cont_to_host_id_injective maps 1003 1003 200003 (low-IsRange, (high-IsRange, tt))
      maps-AllApart conv_third conv_third

add_map_shares_example :
    (add_map (low ∷ []) wide ≡ ok (low ∷ wide ∷ []))
    × (conv_cont_to_host_id (low ∷ wide ∷ []) 0 ≡ ok 100000)
    × (conv_cont_to_host_id (low ∷ wide ∷ []) (100 + (100000 - 99990)) ≡ ok 100000)
add_map_shares_example =
    add_map_shares low wide low-IsRange wide-IsRange (omega arith) (omega arith) (omega arith)
