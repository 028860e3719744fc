-- ===== src/Netlink/Examples.antt =====
-- Netlink messages (common/netlink/netlink-message.cpp) at concrete inputs.
use vasum.Prelude.{
  ℕ, ◌+◌, ◌*◌, ◌/◌, ◌%◌, ◌≡◌, refl, List, [], ◌∷◌, ◌++◌, Text, lit, length, get_or, arith,
}
use vasum.Prelude.Exec.{ok}
use vasum.Netlink.{Abi, Message, Response, new_message, zero_bytes}
use vasum.Netlink.Layout.{IsAbi, attribute}
use vasum.Netlink.RoundTrip.{put_all, fetch_all, texts, fetch_all-put_all}
use vasum.Netlink.Nested.{build, fetch_nested, fetch_nested-build}

-- The layout of a machine that stores the low byte first.
abbrev linux : Abi
linux = record {
  nlmsg_hdrlen = 16;
  rta_hdrlen = 4;
  nlmsg_align = λ n. (n + 3) / 4 * 4;
  rta_align = λ n. (n + 3) / 4 * 4;
  attr_header = λ len kind. len % 256 ∷ len / 256 % 256 ∷ kind % 256 ∷ kind / 256 % 256 ∷ [];
  attr_len = λ t. get_or t 0 0 + 256 * get_or t 1 0;
  attr_type = λ t. get_or t 2 0 + 256 * get_or t 3 0;
  with_ack = λ flags. flags / 8 * 8 + 4 + flags % 4;
}

linux-IsAbi : IsAbi linux
linux-IsAbi = record {
  header_size = λ len kind. refl;
  reads_len = λ len kind rest h. omega arith;
  reads_type = λ len kind rest h. omega arith;
  rta_align_grows = λ n. omega arith;
  aligned_sum = λ a b h. omega arith;
  aligned_header = refl;
  aligned_rta_header = refl;
}

abbrev two : List (ℕ × Text)
two = (3, lit "eth0") ∷ (1, lit "abcdef") ∷ []

abbrev header : Text
header = 0 ∷ 0 ∷ 0 ∷ 0 ∷ 0 ∷ 0 ∷ 0 ∷ 0 ∷ 0 ∷ 0 ∷ 0 ∷ 0 ∷ 0 ∷ 0 ∷ 0 ∷ 0 ∷ []

fetch_all-put_all_example :
    let bytes = header ++ (put_all linux two (new_message linux 16 1 0 42)).body in
    fetch_all linux two (record { bytes = bytes; position = 16; nested = [] })
    ≡ (ok (texts two), record { bytes = bytes; position = length bytes; nested = [] })
fetch_all-put_all_example =
    fetch_all-put_all linux linux-IsAbi 16 1 0 42 two header refl
      ((omega arith, omega arith), ((omega arith, omega arith), tt))

fetch_nested-build_example :
    (m : Message) × (build linux linux-IsAbi 18 two (omega arith) (new_message linux 16 1 0 42)
      ≡ ok m)
    × (let r : Response = record { bytes = header ++ m.body; position = 16; nested = [] } in
        fetch_nested linux linux-IsAbi 18 two (omega arith) r ≡ (ok (texts two), r))
unfolding attribute zero_bytes
fetch_nested-build_example =
    fetch_nested-build linux linux-IsAbi 18 two (omega arith) 16 1 0 42 header refl (omega arith)
      ((omega arith, omega arith), ((omega arith, omega arith), tt))
