-- ===== src/Netlink.antt =====
-- The messages of the netlink protocol (common/netlink/netlink-message.cpp): NetlinkMessage builds one from attributes, and
-- NetlinkResponse reads one. The layout of the kernel's structures, which is that of linux/netlink.h and linux/rtnetlink.h,
-- is a parameter.
pub mod Layout
pub mod RoundTrip
pub mod Nested
mod Examples
use vasum.Prelude.{
  ℕ, zero, suc, ◌+◌, ◌-◌, ◌%◌, ◌≤◌, ◌<◌, ◌≡◌, Bool, true, false, List, [], ◌∷◌, ◌++◌, Text, length,
  take, drop, ltb, nat_eq, not, if◌then◌else◌, ◌&&◌,
}
use vasum.Prelude.Int.{ℤ, sub_ℕ}
use vasum.Prelude.Exec.{
  Outcome, Exec, ok, crashed, pure, throw, crash, gets, modify, when, assert, network, ◌>>=◌, ◌>>◌,
}

-- `attr_header` are the bytes of a struct rtattr with its length and its type, and `attr_len` and `attr_type` read them
-- at the front of a text; `nlmsg_align` and `rta_align` are the macros NLMSG_ALIGN and RTA_ALIGN, `nlmsg_hdrlen` is
-- NLMSG_HDRLEN, `rta_hdrlen` is RTA_LENGTH(0), and `with_ack` sets the bit NLM_F_ACK.
pub record Abi : Type 0 where
  pub nlmsg_hdrlen : ℕ
  pub rta_hdrlen : ℕ
  pub nlmsg_align : ℕ → ℕ
  pub rta_align : ℕ → ℕ
  pub attr_header : (len kind : ℕ) → Text
  pub attr_len : Text → ℕ
  pub attr_type : Text → ℕ
  pub with_ack : ℕ → ℕ

-- The fields of the header are kept apart from `body`, the bytes of the vector behind the header; `nested` are the
-- positions of the open attributes.
pub record Message : Type 0 where
  pub nlmsg_len : ℕ
  pub nlmsg_type : ℕ
  pub nlmsg_flags : ℕ
  pub nlmsg_seq : ℕ
  pub nlmsg_pid : ℕ
  pub body : Text
  pub nested : List ℕ

-- `bytes` is the whole vector.
pub record Response : Type 0 where
  pub bytes : Text
  pub position : ℕ
  pub nested : List ℕ

unfoldable pub zero_bytes : ℕ → Text
zero_bytes zero = []
zero_bytes (suc n) = 0 ∷ zero_bytes n

-- Bytes stored over those of a text from a position on.
unfoldable pub store : ℕ → Text → Text → Text
store n new bytes = take n bytes ++ new ++ drop (n + length new) bytes

abbrev pub Method : Type 0 → Type 0
Method A = Exec Response A

-- get(len): the bytes from the position on, where there are as many.
unfoldable pub get_bytes : ℕ → Method Text
get_bytes len = do
  r ← gets (λ r. r)
  when (ltb (length r.bytes) (r.position + len)) (throw network)
  pure (drop r.position r.bytes)

unfoldable pub seek : ℕ → Method (Unit {0})
seek len = do
  r ← gets (λ r. r)
  when (ltb (length r.bytes) (r.position + len)) (throw network)
  modify (λ r. record r { position = r.position + len })

-- fetch(data, len)
unfoldable pub fetch_raw : ℕ → Method Text
unfolding get_bytes seek
fetch_raw len = do found ← get_bytes len; seek len; pure (take len found)

module _ (abi : Abi) where
  open abi use {
    nlmsg_hdrlen, rta_hdrlen, nlmsg_align, rta_align, attr_header, attr_len, attr_type, with_ack,
  }

  -- The constructor; `seq` is the number of the message before, of 32 bits, and `pid` that of the process.
  unfoldable pub new_message : (kind flags seq pid : ℕ) → Message
  new_message kind flags seq pid = record {
    nlmsg_len = nlmsg_hdrlen;
    nlmsg_type = kind;
    nlmsg_flags = with_ack flags;
    nlmsg_seq = (seq + 1) % 4294967296;
    nlmsg_pid = pid;
    body = [];
    nested = [];
  }

  -- resize, with zeros, to a size that counts the header too
  unfoldable pub set_min_capacity : ℕ → Message → Message
  unfolding zero_bytes
  set_min_capacity size m = record m {
    body = m.body ++ zero_bytes (size - nlmsg_hdrlen - length m.body);
  }

  -- put(ifla, data, len)
  unfoldable pub put : ℕ → Text → Message → Message
  unfolding set_min_capacity store
  put ifla bytes m =
      let rtalen = rta_hdrlen + length bytes in
      let tail = nlmsg_align m.nlmsg_len in
      let new_len = tail + rta_align rtalen in
      let grown = set_min_capacity new_len m in
      record grown {
        body = store (tail - nlmsg_hdrlen) (attr_header rtalen ifla ++ bytes) grown.body;
        nlmsg_len = new_len;
      }

  -- put(data, len)
  unfoldable pub put_raw : Text → Message → Message
  unfolding set_min_capacity store
  put_raw bytes m =
      let new_len = m.nlmsg_len + length bytes in
      let grown = set_min_capacity new_len m in
      record grown {
        body = store (m.nlmsg_len - nlmsg_hdrlen) bytes grown.body;
        nlmsg_len = new_len;
      }

  -- put(ifla, string): the text and the zero that ends it
  unfoldable pub put_string : ℕ → Text → Message → Message
  unfolding put
  put_string ifla value = put ifla (value ++ 0 ∷ [])

  unfoldable pub begin_nested : ℕ → Message → Message
  unfolding put
  begin_nested ifla m =
      let n = put ifla [] m in record n { nested = nlmsg_align m.nlmsg_len ∷ n.nested }

  -- The length of the attribute at the position is set anew.
  unfoldable pub set_attr_len : ℕ → ℕ → Text → Text
  unfolding store
  set_attr_len at len body = store at (attr_header len (attr_type (drop at body))) body

  unfoldable pub close_at : Message → List ℕ → Outcome Message
  unfolding set_attr_len
  close_at m [] = crashed
  close_at m (pos ∷ rest) = ok (record m {
    nested = rest;
    body = set_attr_len (pos - nlmsg_hdrlen) (nlmsg_align m.nlmsg_len - pos) m.body;
  })

  unfoldable pub end_nested : Message → Outcome Message
  unfolding close_at
  end_nested m = close_at m m.nested

  unfoldable pub skip_attribute : Method (Unit {0})
  skip_attribute = do
    rta ← get_bytes rta_hdrlen
    r ← gets (λ r. r)
    when (ltb (length r.bytes) (r.position + rta_align (attr_len rta))) (throw network)
    seek (rta_align (attr_len rta))

  unfoldable pub is_nested_attribute : Method Bool
  unfolding get_bytes
  is_nested_attribute = do rta ← get_bytes rta_hdrlen; pure (nat_eq (attr_len rta) rta_hdrlen)

  -- get(ifla, len) for a length that is not negative: the bytes behind the header
  unfoldable pub get_attribute : ℕ → ℕ → Method Text
  get_attribute ifla len = do
    rta ← get_bytes (rta_hdrlen + len)
    when (not (nat_eq (attr_type rta) ifla)) (throw network)
    when (not (nat_eq (attr_len rta) (rta_hdrlen + len))) (throw network)
    found ← get_bytes (attr_len rta)
    pure (drop rta_hdrlen found)

  -- get(ifla, -1): of any length
  unfoldable pub get_any_attribute : ℕ → Method Text
  unfolding get_bytes
  get_any_attribute ifla = do
    rta ← get_bytes rta_hdrlen
    when (not (nat_eq (attr_type rta) ifla)) (throw network)
    found ← get_bytes (attr_len rta)
    pure (drop rta_hdrlen found)

  -- fetch(ifla, data, len)
  unfoldable pub fetch : ℕ → ℕ → Method Text
  fetch ifla len = do found ← get_attribute ifla len; skip_attribute; pure (take len found)

  -- The bytes of a string: RTA_PAYLOAD of a length below that of the header is a large unsigned number.
  unfoldable pub string_length : ℕ → ℕ → ℕ
  string_length rta_len len =
      if ltb rta_len rta_hdrlen
      then len
      else if ltb (rta_len - rta_hdrlen) len
      then rta_len - rta_hdrlen
      else len

  -- fetch(ifla, value, len). Reading behind the vector crashes.
  unfoldable pub fetch_string : ℕ → ℕ → Method Text
  unfolding get_any_attribute skip_attribute string_length
  fetch_string ifla len = do
    rta ← get_bytes rta_hdrlen
    found ← get_any_attribute ifla
    when (ltb (length found) (string_length (attr_len rta) len)) crash
    skip_attribute
    pure (take (string_length (attr_len rta) len) found)

  unfoldable pub open_nested : ℕ → Method (Unit {0})
  unfolding get_bytes seek
  open_nested ifla = do
    rta ← get_bytes rta_hdrlen
    when (not (nat_eq (attr_type rta) ifla)) (throw network)
    r ← gets (λ r. r)
    seek rta_hdrlen
    modify (λ s. record s { nested = r.position ∷ s.nested })

  unfoldable pub close_open : List ℕ → Method (Unit {0})
  close_open [] = crash
  close_open (pos ∷ rest) = do
    r ← gets (λ r. r)
    when (not (nat_eq (attr_len (drop pos r.bytes) + pos) r.position)) (throw network)
    modify (λ s. record s { nested = rest; position = pos })

  unfoldable pub close_nested : Method (Unit {0})
  unfolding close_open
  close_nested = do r ← gets (λ r. r); close_open r.nested

  unfoldable pub get_attribute_type : Method ℕ
  unfolding get_bytes
  get_attribute_type = do rta ← get_bytes rta_hdrlen; pure (attr_type rta)

  unfoldable pub get_attribute_length : Method ℤ
  unfolding get_bytes
  get_attribute_length = do rta ← get_bytes rta_hdrlen; pure (sub_ℕ (attr_len rta) rta_hdrlen)
