-- ===== src/Netlink/Nested.antt =====
-- Attributes within an attribute (beginNested, endNested, openNested and closeNested of common/netlink/netlink-message.cpp).
use mathlib.Core.List.{append_assoc, append-nil}
use vasum.Prelude.{
  ℕ, ◌+◌, ◌-◌, ◌≤◌, ◌<◌, ◌≡◌, refl, sym, ap, ◌∙◌, true, List, [], ◌∷◌, ◌++◌, Text, length,
  length-append, drop, nat_eq, arith, All,
}
use vasum.Prelude.Exec.{Outcome, ok, pure, ◌>>=◌, ◌>>◌}
use vasum.Netlink.{
  Abi, Message, Response, Method, zero_bytes, store, new_message, put, begin_nested, set_attr_len,
  close_at, end_nested, open_nested, close_open, close_nested,
}
use vasum.Netlink.Layout.{
  IsAbi, IsTight, attribute, put-attribute, take-append, drop-append, drop-append_more,
}
use vasum.Netlink.RoundTrip.{
  IsShort, put_all, attributes, fetch_all, texts, put_all-attributes, fetch_all-attributes,
  new_message-IsTight, got, moved,
}

store_over :
    (front old rest new : Text)
    → length new ≡ length old
    → store (length front) new (front ++ (old ++ rest)) ≡ front ++ (new ++ rest)
unfolding store
store_over front old rest new e =
    rw
      (
        take-append front (old ++ rest),
        drop-append_more front (old ++ rest) (length new),
        e,
        drop-append old rest,
      )
      (append_assoc front new rest)

module _ (abi : Abi) (laws : IsAbi abi) where
  open abi use {nlmsg_hdrlen, rta_hdrlen, nlmsg_align, rta_align, attr_header, attr_len, attr_type}

  put_all-IsTight :
      (as' : List (ℕ × Text)) (m : Message) → IsTight abi m → IsTight abi (put_all abi as' m)
  unfolding put_all
  put_all-IsTight [] m t = t
  put_all-IsTight ((ifla, bytes) ∷ as') m t =
      put_all-IsTight as' (put abi ifla bytes m) (put-attribute abi laws ifla bytes m t).1

  put_all_nested : (as' : List (ℕ × Text)) (m : Message) → (put_all abi as' m).nested ≡ m.nested
  unfolding put_all put
  put_all_nested [] m = refl
  put_all_nested ((ifla, bytes) ∷ as') m = put_all_nested as' (put abi ifla bytes m)

  begin_nested-top :
      (ifla : ℕ) (m : Message)
      → (begin_nested abi ifla m).nested ≡ nlmsg_align m.nlmsg_len ∷ m.nested
  unfolding begin_nested put
  begin_nested-top ifla m = refl

  end_nested_top :
      (m : Message) (pos at len : ℕ) (rest : List ℕ)
      → m.nested ≡ pos ∷ rest
      → pos - nlmsg_hdrlen ≡ at
      → nlmsg_align m.nlmsg_len - pos ≡ len
      → end_nested abi m ≡ ok (record m { nested = rest; body = set_attr_len abi at len m.body })
  unfolding end_nested close_at
  end_nested_top m pos at len rest e at_pos long = rw (e, at_pos, long) refl

  module _ (ifla : ℕ) (as' : List (ℕ × Text)) (kind_fits : ifla < 65536) where
    -- The length of the outer attribute.
    whole : ℕ
    whole = rta_hdrlen + length (attributes abi as')

    unfoldable nested_attribute : Text
    unfolding whole
    nested_attribute = attr_header whole ifla ++ attributes abi as'

    empty_attribute : attribute abi ifla [] ≡ attr_header rta_hdrlen ifla
    unfolding attribute zero_bytes
    empty_attribute =
        let same : rta_hdrlen + 0 ≡ rta_hdrlen = omega arith in
        let none' : rta_hdrlen - rta_hdrlen ≡ 0 = omega arith in
        rw (same, laws.aligned_rta_header, none') (append-nil (attr_header rta_hdrlen ifla))

    begun :
        (m : Message)
        → IsTight abi m
        → ((begin_nested abi ifla m).body ≡ m.body ++ attr_header rta_hdrlen ifla)
          × IsTight abi (begin_nested abi ifla m)
    unfolding begin_nested
    begun m t =
        let (behind, tight) = put-attribute abi laws ifla [] m t in
        (
          behind ∙ ap (λ l. m.body ++ l) empty_attribute,
          record { aligned = tight.aligned; ends = tight.ends },
        )

    -- What is put between beginNested and endNested.
    abbrev pub build : Message → Outcome Message
    build m = end_nested abi (put_all abi as' (begin_nested abi ifla m))

    full_body :
        (m : Message)
        → IsTight abi m
        → (put_all abi as' (begin_nested abi ifla m)).body
          ≡ m.body ++ (attr_header rta_hdrlen ifla ++ attributes abi as')
    full_body m t =
        let (behind, tight) = begun m t in
        put_all-attributes abi laws as' (begin_nested abi ifla m) tight
        ∙ ap (λ b. b ++ attributes abi as') behind
        ∙ append_assoc m.body (attr_header rta_hdrlen ifla) (attributes abi as')

    reset :
        (m : Message) (b : Text)
        → b ≡ m.body ++ (attr_header rta_hdrlen ifla ++ attributes abi as')
        → set_attr_len abi (length m.body) whole b ≡ m.body ++ nested_attribute
    unfolding set_attr_len nested_attribute
    reset m b e =
        let old = attr_header rta_hdrlen ifla in
        rw
          (
            e,
            drop-append m.body (old ++ attributes abi as'),
            laws.reads_type rta_hdrlen ifla (attributes abi as') kind_fits,
          )
          (store_over m.body old (attributes abi as') (attr_header whole ifla)
            (laws.header_size whole ifla ∙ sym (laws.header_size rta_hdrlen ifla)))

    -- An attribute that is begun, filled and ended is one with the attributes that were put in between.
    build_lem :
        (m : Message)
        → IsTight abi m
        → (m' : Message) × (build m ≡ ok m')
          × (m'.body ≡ m.body ++ nested_attribute)
          × (m'.nested ≡ m.nested)
    unfolding whole
    build_lem m t =
        let full = put_all abi as' (begin_nested abi ifla m) in
        let open' : full.nested ≡ nlmsg_align m.nlmsg_len ∷ m.nested =
          put_all_nested as' (begin_nested abi ifla m) ∙ begin_nested-top ifla m in
        let is_full = full_body m t in
        let tight = put_all-IsTight as' (begin_nested abi ifla m) (begun m t).1 in
        let at : nlmsg_align m.nlmsg_len - nlmsg_hdrlen ≡ length m.body =
          omega (arith, t.aligned, t.ends) in
        let long : nlmsg_align full.nlmsg_len - nlmsg_align m.nlmsg_len ≡ whole = omega (
          arith,
          t.aligned,
          t.ends,
          tight.aligned,
          tight.ends,
          ap length is_full,
          length-append {0} m.body (attr_header rta_hdrlen ifla ++ attributes abi as'),
          length-append {0} (attr_header rta_hdrlen ifla) (attributes abi as'),
          laws.header_size rta_hdrlen ifla,
        ) in
        (
          record full {
            nested = m.nested;
            body = set_attr_len abi (length m.body) whole full.body;
          },
          end_nested_top full (nlmsg_align m.nlmsg_len) (length m.body) whole m.nested open' at
              long,
          reset m full.body is_full,
          refl,
        )

    -- The attribute is opened, what is in it is fetched, and it is closed.
    unfoldable pub fetch_nested : Method (List Text)
    fetch_nested = do open_nested abi ifla; found ← fetch_all abi as'; close_nested abi; pure found

    module _ (r : Response) (front rest : Text) (fits : whole < 65536)
        (is_here : r.bytes ≡ front ++ (nested_attribute ++ rest))
        (at : r.position ≡ length front) where
      here : r.bytes ≡ front ++ (attr_header whole ifla ++ (attributes abi as' ++ rest))
      unfolding nested_attribute
      here =
          is_here
          ∙ ap (λ l. front ++ l) (append_assoc (attr_header whole ifla) (attributes abi as') rest)

      shown : drop r.position r.bytes ≡ attr_header whole ifla ++ (attributes abi as' ++ rest)
      shown =
          rw (here, at) (drop-append front (attr_header whole ifla ++ (attributes abi as' ++ rest)))

      header_end : r.position + rta_hdrlen ≡ length (front ++ attr_header whole ifla)
      header_end =
          omega (
            arith,
            at,
            length-append {0} front (attr_header whole ifla),
            laws.header_size whole ifla,
          )

      room : r.position + rta_hdrlen ≤ length r.bytes
      room = omega (
        arith,
        header_end,
        ap length here,
        length-append {0} front (attr_header whole ifla ++ (attributes abi as' ++ rest)),
        length-append {0} front (attr_header whole ifla),
        length-append {0} (attr_header whole ifla) (attributes abi as' ++ rest),
      )

      opened : Response
      opened = record r { position = r.position + rta_hdrlen; nested = r.position ∷ r.nested }

      is_opened : open_nested abi ifla r ≡ (ok tt, opened)
      unfolding open_nested opened ◌>>=◌
      is_opened =
          let same : nat_eq ifla ifla ≡ true = ground arith in
          rw
            (
              got abi laws rta_hdrlen r room,
              shown,
              laws.reads_type whole ifla (attributes abi as' ++ rest) kind_fits,
              same,
              moved abi laws rta_hdrlen r room,
            )
            refl

      read : Response
      unfolding opened
      read = record opened {
        position = length ((front ++ attr_header whole ifla) ++ attributes abi as');
      }

      is_closed : close_nested abi read ≡ (ok tt, r)
      unfolding close_nested close_open opened read ◌>>=◌
      is_closed =
          let ends : nat_eq (whole + r.position)
                (length ((front ++ attr_header whole ifla) ++ attributes abi as'))
              ≡ true =
            unfold whole in
            ground (
              arith,
              header_end,
              length-append {0} (front ++ attr_header whole ifla) (attributes abi as'),
            ) in
          rw (shown, laws.reads_len whole ifla (attributes abi as' ++ rest) fits, ends) refl

      fetch_nested_lem : All (IsShort abi) as' → fetch_nested r ≡ (ok (texts as'), r)
      unfolding fetch_nested opened read ◌>>=◌
      fetch_nested_lem short =
          let inner =
            fetch_all-attributes abi laws as' opened (front ++ attr_header whole ifla) rest short
              (here
                ∙ sym (append_assoc front (attr_header whole ifla) (attributes abi as' ++ rest)))
              header_end in
          rw (is_opened, inner, is_closed) refl

    -- Where the layout is like the kernel's, for a kind, lengths and a whole of 16 bits each: attributes that are put into a
    -- new message within another attribute are read back by opening that attribute, fetching them in their order, and closing
    -- it. The response is then where it was before, in front of the attribute.
    pub fetch_nested-build :
        (kind flags seq pid : ℕ) (header : Text)
        → length header ≡ nlmsg_hdrlen
        → rta_hdrlen + length (attributes abi as') < 65536
        → All (IsShort abi) as'
        → (m : Message) × (build (new_message abi kind flags seq pid) ≡ ok m)
          × (let r : Response = record {
            bytes = header ++ m.body;
            position = nlmsg_hdrlen;
            nested = [];
          } in
              fetch_nested r ≡ (ok (texts as'), r))
    unfolding whole new_message
    fetch_nested-build kind flags seq pid header size fits short =
        let (m, built, body, _) =
          build_lem (new_message abi kind flags seq pid)
            (new_message-IsTight abi laws kind flags seq pid) in
        (
          m,
          built,
          fetch_nested_lem
              (record { bytes = header ++ m.body; position = nlmsg_hdrlen; nested = [] }) header []
              fits (ap (λ b. header ++ b) (body ∙ sym (append-nil nested_attribute))) (sym size)
              short,
        )
