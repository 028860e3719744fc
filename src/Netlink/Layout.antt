-- ===== src/Netlink/Layout.antt =====
-- What the layout of the kernel's structures grants, and what common/netlink/netlink-message.cpp then puts into a message.
use mathlib.Core.List.{append_assoc}
use vasum.Prelude.{
  ℕ, zero, suc, ◌+◌, ◌-◌, ◌≤◌, ◌<◌, ◌≡◌, refl, sym, ap, ◌∙◌, [], ◌∷◌, ◌++◌, Text, length,
  length-append, take, drop, arith,
}
use vasum.Netlink.{Abi, Message, zero_bytes, store, put}

-- The header of an attribute has its size, and gives back what 16 bits hold. A position that NLMSG_ALIGN made, with a length
-- that RTA_ALIGN made, is one that NLMSG_ALIGN leaves, and so is the size of a message's header;
-- RTA_ALIGN leaves the size of an attribute's header.
pub record IsAbi (abi : Abi) : Type 0 where
  pub header_size : (len kind : ℕ) → length (abi.attr_header len kind) ≡ abi.rta_hdrlen
  pub reads_len :
      (len kind : ℕ) (rest : Text)
      → len < 65536
      → abi.attr_len (abi.attr_header len kind ++ rest) ≡ len
  pub reads_type :
      (len kind : ℕ) (rest : Text)
      → kind < 65536
      → abi.attr_type (abi.attr_header len kind ++ rest) ≡ kind
  pub rta_align_grows : (n : ℕ) → n ≤ abi.rta_align n
  pub aligned_sum :
      (a b : ℕ)
      → abi.nlmsg_align a ≡ a
      → abi.nlmsg_align (a + abi.rta_align b) ≡ a + abi.rta_align b
  pub aligned_header : abi.nlmsg_align abi.nlmsg_hdrlen ≡ abi.nlmsg_hdrlen
  pub aligned_rta_header : abi.rta_align abi.rta_hdrlen ≡ abi.rta_hdrlen

pub take-append : (xs ys : Text) → take (length xs) (xs ++ ys) ≡ xs
take-append [] ys = refl
take-append (x ∷ xs) ys = ap (λ l. x ∷ l) (take-append xs ys)

pub drop-append : (xs ys : Text) → drop (length xs) (xs ++ ys) ≡ ys
drop-append [] ys = refl
drop-append (x ∷ xs) ys = drop-append xs ys

pub drop-append_more : (xs ys : Text) (n : ℕ) → drop (length xs + n) (xs ++ ys) ≡ drop n ys
drop-append_more [] ys n = let e : 0 + n ≡ n = omega arith in rw e refl
drop-append_more (x ∷ xs) ys n =
    let e : suc (length xs) + n ≡ suc (length xs + n) = omega arith in
    rw e (drop-append_more xs ys n)

length-zero_bytes : (n : ℕ) → length (zero_bytes n) ≡ n
unfolding zero_bytes
length-zero_bytes zero = refl
length-zero_bytes (suc n) = omega (arith, length-zero_bytes n)

drop-zero_bytes : (n k : ℕ) → k ≤ n → drop k (zero_bytes n) ≡ zero_bytes (n - k)
unfolding zero_bytes
drop-zero_bytes n zero h = let e : n - 0 ≡ n = omega arith in rw e refl
drop-zero_bytes zero (suc k) h = absurd (omega arith)
drop-zero_bytes (suc n) (suc k) h =
    let e : suc n - suc k ≡ n - k = omega arith in rw e (drop-zero_bytes n k (omega arith))

store_end :
    (front new : Text) (k : ℕ)
    → length new ≤ k
    → store (length front) new (front ++ zero_bytes k)
      ≡ front ++ (new ++ zero_bytes (k - length new))
unfolding store
store_end front new k h =
    rw
      (
        take-append front (zero_bytes k),
        drop-append_more front (zero_bytes k) (length new),
        drop-zero_bytes k (length new) h,
      )
      (append_assoc front new (zero_bytes (k - length new)))

module _ (abi : Abi) where
  open abi use {nlmsg_hdrlen, rta_hdrlen, nlmsg_align, rta_align, attr_header}

  -- An attribute as it stands in a message: its header, its bytes, and zeros up to where the next one is aligned.
  unfoldable pub attribute : ℕ → Text → Text
  attribute ifla bytes =
      attr_header (rta_hdrlen + length bytes) ifla
      ++ (bytes ++ zero_bytes (rta_align (rta_hdrlen + length bytes) - (rta_hdrlen + length bytes)))

  -- The message ends where its vector does, at an aligned position.
  pub record IsTight (m : Message) : Type 0 where
    pub aligned : nlmsg_align m.nlmsg_len ≡ m.nlmsg_len
    pub ends : m.nlmsg_len ≡ nlmsg_hdrlen + length m.body

  module _ (laws : IsAbi abi) where
    pub length-attribute :
        (ifla : ℕ) (bytes : Text)
        → length (attribute ifla bytes) ≡ rta_align (rta_hdrlen + length bytes)
    unfolding attribute
    length-attribute ifla bytes =
        let n = rta_hdrlen + length bytes in
        omega (
          arith,
          length-append {0} (attr_header n ifla) (bytes ++ zero_bytes (rta_align n - n)),
          length-append {0} bytes (zero_bytes (rta_align n - n)),
          length-zero_bytes (rta_align n - n),
          laws.header_size n ifla,
          laws.rta_align_grows n,
        )

    put_behind :
        (ifla : ℕ) (bytes : Text) (m : Message)
        → IsTight m
        → (put abi ifla bytes m).body ≡ m.body ++ attribute ifla bytes
    unfolding put attribute
    put_behind ifla bytes m t =
        let n = rta_hdrlen + length bytes in
        let new = attr_header n ifla ++ bytes in
        let size : length new ≡ n =
          omega (arith, length-append {0} (attr_header n ifla) bytes, laws.header_size n ifla) in
        let at : nlmsg_align m.nlmsg_len - nlmsg_hdrlen ≡ length m.body =
          omega (arith, t.aligned, t.ends) in
        let room : nlmsg_align m.nlmsg_len + rta_align n - nlmsg_hdrlen - length m.body
            ≡ rta_align n =
          omega (arith, t.aligned, t.ends) in
        rw (at, room)
          (store_end m.body new (rta_align n) (omega (arith, size, laws.rta_align_grows n))
            ∙ ap (λ k. m.body ++ (new ++ zero_bytes (rta_align n - k))) size
            ∙ ap (λ l. m.body ++ l)
                (append_assoc (attr_header n ifla) bytes (zero_bytes (rta_align n - n))))

    -- An attribute that is put into such a message comes behind what is there, and nothing else changes.
    pub put-attribute :
        (ifla : ℕ) (bytes : Text) (m : Message)
        → IsTight m
        → ((put abi ifla bytes m).body ≡ m.body ++ attribute ifla bytes)
          × IsTight (put abi ifla bytes m)
    unfolding put
    put-attribute ifla bytes m t =
        let behind = put_behind ifla bytes m t in
        (
          behind,
          record {
            aligned =
                ap (λ n. nlmsg_align (n + rta_align (rta_hdrlen + length bytes))) t.aligned
                ∙ laws.aligned_sum m.nlmsg_len (rta_hdrlen + length bytes) t.aligned
                ∙ ap (λ n. n + rta_align (rta_hdrlen + length bytes)) (sym t.aligned);
            ends = omega (
              arith,
              ap length behind,
              length-append {0} m.body (attribute ifla bytes),
              length-attribute ifla bytes,
              t.aligned,
              t.ends,
            );
          },
        )
