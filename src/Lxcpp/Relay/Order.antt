-- ===== src/Lxcpp/Relay/Order.antt =====
-- The order of the bytes over any events of the relay of the guard (libs/lxcpp/guard/guard.cpp).
use vasum.Prelude.{
  ℕ, ◌-◌, zero, suc, ◌≡◌, refl, Bool, true, false, List, [], ◌∷◌, length, nat_eq, Bool-cases, inl,
  inr, arith,
}
use vasum.Lxcpp.Relay.{
  Buffer, buffer_size, zeros, new_relay, Side, cont, impl, epollin, Relay, RelayIo, waiting,
  on_readable, on_writable, relay_events,
}
use vasum.Lxcpp.Relay.Buffers.{Fits, length-take}
use vasum.Lxcpp.Relay.Fifo.{
  IsIo, Traffic, recorded, IsWatched, IsSound, cont_received-IsSound, impl_received-IsSound,
  cont_sent-IsSound, impl_sent-IsSound,
}

pub length-waiting : (b : Buffer) → Fits b → length (waiting b) ≡ b.offset
length-waiting b f = length-take b.offset b.bytes (omega (arith, f.size, f.within))

length-zeros : (n : ℕ) → length (zeros n) ≡ n
unfolding zeros
length-zeros zero = refl
length-zeros (suc n) = omega (arith, length-zeros n)

abbrev pub no_traffic : Traffic
no_traffic = record { from_cont = []; to_impl = []; from_impl = []; to_cont = [] }

pub new_relay-IsSound : IsSound new_relay no_traffic
unfolding new_relay
new_relay-IsSound = record {
  to_impl = fresh;
  to_cont = fresh;
  passed_on = refl;
  passed_back = refl;
}
  where
    fresh : IsWatched (record { bytes = zeros buffer_size; offset = 0 }) epollin
    fresh = record {
      fits = record { size = length-zeros buffer_size; within = omega arith };
      watched = inl (refl, refl);
    }

module _ {W : Type 0} (io : RelayIo W) (lawful : IsIo io) where
  readable-IsSound :
      (side : Side) (readable : Bool) (r : Relay) (w : W) (t : Traffic)
      → IsSound r t
      → let s' = on_readable (recorded io) side readable (r, (w, t)) in IsSound s'.0 s'.1.1
  readable-IsSound side false r w t s = s
  readable-IsSound cont true r w t s =
      cont_received-IsSound r t s _ (lawful.read_fits cont (buffer_size - r.cont_to_impl.offset) w)
  readable-IsSound impl true r w t s =
      impl_received-IsSound r t s _ (lawful.read_fits impl (buffer_size - r.impl_to_cont.offset) w)

  writable-IsSound :
      (side : Side) (writable : Bool) (r : Relay) (w : W) (t : Traffic)
      → IsSound r t
      → let s' = on_writable (recorded io) side writable (r, (w, t)) in IsSound s'.0 s'.1.1
  writable-IsSound side false r w t s = s
  writable-IsSound cont true r w t s = elim (Bool-cases (nat_eq r.impl_to_cont.offset 0)) [
    | inl none' ↦ rw none' s
    | inr some' ↦
        let b = r.impl_to_cont in
        rw some' (
          cont_sent-IsSound r t s _ (λ n e.
            omega
              (arith, lawful.write_fits cont (waiting b) w n e, length-waiting b s.to_cont.fits)))
  ]
  writable-IsSound impl true r w t s = elim (Bool-cases (nat_eq r.cont_to_impl.offset 0)) [
    | inl none' ↦ rw none' s
    | inr some' ↦
        let b = r.cont_to_impl in
        rw some' (
          impl_sent-IsSound r t s _ (λ n e.
            omega
              (arith, lawful.write_fits impl (waiting b) w n e, length-waiting b s.to_impl.fits)))
  ]

  -- Where read returns no more bytes than asked for and write no more than given, over any events, at either terminal:
  -- what was read from the container is what was written to the host and what waits, in this order, and the same the
  -- other way; the arrays are kept within; and a terminal is watched for writing as long as bytes wait for it, and for
  -- reading otherwise.
  pub relay_events-IsSound :
      (es : List (Side × Bool × Bool)) (r : Relay) (w : W) (t : Traffic)
      → IsSound r t
      → let s' = relay_events (recorded io) es (r, (w, t)) in IsSound s'.0 s'.1.1
  unfolding relay_events
  relay_events-IsSound [] r w t s = s
  relay_events-IsSound ((side, readable, writable) ∷ es) r w t s =
      let u = on_readable (recorded io) side readable (r, (w, t)) in
      let v = on_writable (recorded io) side writable u in
      relay_events-IsSound es v.0 v.1.0 v.1.1
        (writable-IsSound side writable u.0 u.1.0 u.1.1 (readable-IsSound side readable r w t s))
