-- ===== src/Netlink/RoundTrip.antt =====
-- What common/netlink/netlink-message.cpp puts into a message is what it fetches from it.
use mathlib.Core.List.{append_assoc, append-nil}
use vasum.Prelude.{
  ℕ, ◌+◌, ◌-◌, ◌≤◌, ◌<◌, ◌≡◌, refl, sym, ap, ◌∙◌, true, false, List, [], ◌∷◌, ◌++◌, Text, length,
  length-append, take, drop, ltb, nat_eq, arith, All,
}
use vasum.Prelude.Exec.{ok, pure, ◌>>=◌}
use vasum.Netlink.{
  Abi, Message, Response, Method, zero_bytes, new_message, put, get_bytes, seek, skip_attribute,
  get_attribute, fetch,
}
use vasum.Netlink.Layout.{
  IsAbi, IsTight, attribute, length-attribute, put-attribute, take-append, drop-append,
}

-- The text of an attribute that the 16 bits of its header can describe.
abbrev pub IsShort : (abi : Abi) → ℕ × Text → Type 0
IsShort abi (ifla, bytes) = (ifla < 65536) × (abi.rta_hdrlen + length bytes < 65536)

module _ (abi : Abi) (laws : IsAbi abi) where
  open abi use {nlmsg_hdrlen, rta_hdrlen, nlmsg_align, rta_align, attr_header, attr_len, attr_type}

  pub got :
      (k : ℕ) (r : Response)
      → r.position + k ≤ length r.bytes
      → get_bytes k r ≡ (ok (drop r.position r.bytes), r)
  unfolding get_bytes ◌>>=◌
  got k r h = let e : ltb (length r.bytes) (r.position + k) ≡ false = ground arith in rw e refl

  pub moved :
      (k : ℕ) (r : Response)
      → r.position + k ≤ length r.bytes
      → seek k r ≡ (ok tt, record r { position = r.position + k })
  unfolding seek ◌>>=◌
  moved k r h = let e : ltb (length r.bytes) (r.position + k) ≡ false = ground arith in rw e refl

  module _ (r : Response) (front rest : Text) (ifla : ℕ) (bytes : Text)
      (short : IsShort abi (ifla, bytes))
      (is_here : r.bytes ≡ front ++ (attribute abi ifla bytes ++ rest))
      (at : r.position ≡ length front) where
    size : ℕ
    size = rta_hdrlen + length bytes

    -- What follows the header.
    tail : Text
    tail = bytes ++ (zero_bytes (rta_align size - size) ++ rest)

    shown : drop r.position r.bytes ≡ attr_header size ifla ++ tail
    unfolding size tail attribute
    shown =
        let z = zero_bytes (rta_align size - size) in
        let h = attr_header size ifla in
        rw (is_here, at)
          (drop-append front (attribute abi ifla bytes ++ rest)
            ∙ append_assoc h (bytes ++ z) rest
            ∙ ap (λ l. h ++ l) (append_assoc bytes z rest))

    room : r.position + rta_align size ≤ length r.bytes
    unfolding size
    room = omega (
      arith,
      ap length is_here,
      length-append {0} front (attribute abi ifla bytes ++ rest),
      length-append {0} (attribute abi ifla bytes) rest,
      length-attribute abi laws ifla bytes,
      at,
    )

    size_more : rta_hdrlen ≤ size
    unfolding size
    size_more = omega arith

    behind_header : drop rta_hdrlen (attr_header size ifla ++ tail) ≡ tail
    behind_header =
        ap (λ n. drop n (attr_header size ifla ++ tail)) (sym (laws.header_size size ifla))
        ∙ drop-append (attr_header size ifla) tail

    found : get_attribute abi ifla (length bytes) r ≡ (ok tail, r)
    unfolding get_attribute size ◌>>=◌
    found =
        let kind : nat_eq (attr_type (attr_header size ifla ++ tail)) ifla ≡ true =
          ground (arith, laws.reads_type size ifla tail short.0) in
        let len : attr_len (attr_header size ifla ++ tail) ≡ size =
          laws.reads_len size ifla tail short.1 in
        let same : nat_eq size size ≡ true = ground arith in
        let near : r.position + size ≤ length r.bytes =
          omega (arith, room, laws.rta_align_grows size) in
        rw (got size r near, shown, kind, len, same, got size r near, shown)
          (ap (λ l. (ok l, r)) behind_header)

    skipped : skip_attribute abi r ≡ (ok tt, record r { position = r.position + rta_align size })
    unfolding skip_attribute ◌>>=◌ size
    skipped =
        let len : attr_len (attr_header size ifla ++ tail) ≡ size =
          laws.reads_len size ifla tail short.1 in
        let near : r.position + rta_hdrlen ≤ length r.bytes =
          omega (arith, room, size_more, laws.rta_align_grows size) in
        let within : ltb (length r.bytes) (r.position + rta_align size) ≡ false =
          ground (arith, room) in
        rw (got rta_hdrlen r near, shown, len, within, moved (rta_align size) r room) refl

    front_of : take (length bytes) tail ≡ bytes
    unfolding tail
    front_of = take-append bytes (zero_bytes (rta_align size - size) ++ rest)

    moved_to : r.position + rta_align size ≡ length (front ++ attribute abi ifla bytes)
    unfolding size
    moved_to = omega (
      arith,
      length-append {0} front (attribute abi ifla bytes),
      length-attribute abi laws ifla bytes,
      at,
    )

    -- At an attribute, its bytes are fetched, and the position is then behind it.
    pub fetch-attribute :
        fetch abi ifla (length bytes) r
        ≡ (ok bytes, record r { position = length (front ++ attribute abi ifla bytes) })
    unfolding fetch ◌>>=◌
    fetch-attribute =
        rw (found, skipped, front_of) (ap (λ p. (ok bytes, record r { position = p })) moved_to)

-- The kinds and the bytes of attributes, put one after the other.
module _ (abi : Abi) where
  unfoldable pub put_all : List (ℕ × Text) → Message → Message
  put_all [] m = m
  put_all ((ifla, bytes) ∷ as') m = put_all as' (put abi ifla bytes m)

  abbrev pub attributes : List (ℕ × Text) → Text
  attributes [] = []
  attributes ((ifla, bytes) ∷ as') = attribute abi ifla bytes ++ attributes as'

  -- The same kinds and lengths, fetched one after the other.
  unfoldable pub fetch_all : List (ℕ × Text) → Method (List Text)
  fetch_all [] = pure []
  fetch_all ((ifla, bytes) ∷ as') = do
    found ← fetch abi ifla (length bytes)
    others ← fetch_all as'
    pure (found ∷ others)

abbrev pub texts : List (ℕ × Text) → List Text
texts [] = []
texts ((ifla, bytes) ∷ as') = bytes ∷ texts as'

module _ (abi : Abi) (laws : IsAbi abi) where
  pub put_all-attributes :
      (as' : List (ℕ × Text)) (m : Message)
      → IsTight abi m
      → (put_all abi as' m).body ≡ m.body ++ attributes abi as'
  unfolding put_all
  put_all-attributes [] m t = sym (append-nil m.body)
  put_all-attributes ((ifla, bytes) ∷ as') m t =
      let (behind, tight) = put-attribute abi laws ifla bytes m t in
      put_all-attributes as' (put abi ifla bytes m) tight
      ∙ ap (λ b. b ++ attributes abi as') behind
      ∙ append_assoc m.body (attribute abi ifla bytes) (attributes abi as')

  pub fetch_all-attributes :
      (as' : List (ℕ × Text)) (r : Response) (front rest : Text)
      → All (IsShort abi) as'
      → r.bytes ≡ front ++ (attributes abi as' ++ rest)
      → r.position ≡ length front
      → fetch_all abi as' r
        ≡ (ok (texts as'), record r { position = length (front ++ attributes abi as') })
  unfolding fetch_all ◌>>=◌
  fetch_all-attributes [] r front rest short is_here at =
      ap (λ p. (ok [], record r { position = p })) (at ∙ ap length (sym (append-nil front)))
  fetch_all-attributes ((ifla, bytes) ∷ as') r front rest (short, shorts) is_here at =
      let one = attribute abi ifla bytes in
      let more = attributes abi as' in
      let here = is_here ∙ ap (λ l. front ++ l) (append_assoc one more rest) in
      let next : Response = record r { position = length (front ++ one) } in
      let there : r.bytes ≡ (front ++ one) ++ (more ++ rest) =
        here ∙ sym (append_assoc front one (more ++ rest)) in
      rw
        (
          fetch-attribute abi laws r front (more ++ rest) ifla bytes short here at,
          fetch_all-attributes as' next (front ++ one) rest shorts there refl,
        )
        (ap (λ l. (ok (bytes ∷ texts as'), record r { position = length l }))
          (append_assoc front one more))

  pub new_message-IsTight :
      (kind flags seq pid : ℕ) → IsTight abi (new_message abi kind flags seq pid)
  unfolding new_message
  new_message-IsTight kind flags seq pid = record {
    aligned = laws.aligned_header;
    ends = omega arith;
  }

  new_message_body :
      (kind flags seq pid : ℕ) (as' : List (ℕ × Text))
      → (put_all abi as' (new_message abi kind flags seq pid)).body ≡ attributes abi as'
  unfolding new_message
  new_message_body kind flags seq pid as' =
      put_all-attributes as' _ (new_message-IsTight kind flags seq pid)

  -- Where the layout is like the kernel's (a header of an attribute reads back, and aligned lengths sum to aligned
  -- ones): a new message into which attributes are put, each with a kind and a length of 16 bits, is read back from
  -- behind its header: the bytes of each are fetched, in their order, and the position is then the end.
  pub fetch_all-put_all :
      (kind flags seq pid : ℕ) (as' : List (ℕ × Text)) (header : Text)
      → length header ≡ abi.nlmsg_hdrlen
      → All (IsShort abi) as'
      → let bytes = header ++ (put_all abi as' (new_message abi kind flags seq pid)).body in
        fetch_all abi as' (record { bytes = bytes; position = abi.nlmsg_hdrlen; nested = [] })
        ≡ (ok (texts as'), record { bytes = bytes; position = length bytes; nested = [] })
  fetch_all-put_all kind flags seq pid as' header size short =
      let body = new_message_body kind flags seq pid as' in
      let bytes = header ++ (put_all abi as' (new_message abi kind flags seq pid)).body in
      let start : Response = record { bytes = bytes; position = abi.nlmsg_hdrlen; nested = [] } in
      let is_here : bytes ≡ header ++ (attributes abi as' ++ []) =
        ap (λ b. header ++ b) (body ∙ sym (append-nil (attributes abi as'))) in
      fetch_all-attributes as' start header [] short is_here (sym size)
      ∙ ap (λ b. (ok (texts as'), record start { position = length (header ++ b) })) (sym body)
