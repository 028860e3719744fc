-- ===== src/Lxcpp/Relay/Progress.antt =====
-- The relay of the guard (libs/lxcpp/guard/guard.cpp) delivers what waits.
use mathlib.Core.List.{append-nil}
use vasum.Prelude.{
  ℕ, zero, suc, ◌-◌, ◌≤◌, ◌<◌, ◌≡◌, refl, sym, ap, ◌∙◌, Bool, true, false, List, [], ◌∷◌, ◌++◌,
  Text, some, length, take, nat_eq, Bool-cases, inl, inr, arith,
}
use vasum.Lxcpp.Relay.{
  Side, impl, epollin, Relay, RelayIo, drain, waiting, impl_sent, on_writable, on_terminal,
  relay_events,
}
use vasum.Lxcpp.Relay.Fifo.{IsIo, Traffic, recorded, IsSound}
use vasum.Lxcpp.Relay.Order.{relay_events-IsSound, length-waiting}

-- The host's terminal takes a byte at least of what it is given.
pub record Accepts {W : Type 0} (io : RelayIo W) : Type 0 where
  pub takes :
      (bs : Text) (w : W) → 0 < length bs → (n : ℕ) × ((io.write impl bs w).0 ≡ some (suc n))

-- `k` times the host's terminal is ready for writing.
abbrev pub writes : ℕ → List (Side × Bool × Bool)
writes zero = []
writes (suc k) = (impl, false, true) ∷ writes k

impl_sent-offset :
    (r : Relay) (n : ℕ)
    → (impl_sent r (some (suc n))).cont_to_impl.offset ≡ r.cont_to_impl.offset - suc n
unfolding impl_sent drain
impl_sent-offset r n = ground arith

module _ {W : Type 0} (io : RelayIo W) (lawful : IsIo io) (accepts : Accepts io) where
  -- One event.
  after_one : Relay → W → Traffic → Relay × (W × Traffic)
  unfolding on_terminal
  after_one r w t = on_writable (recorded io) impl true (r, (w, t))

  falls :
      (r : Relay) (w : W) (t : Traffic) (k : ℕ)
      → IsSound r t
      → r.cont_to_impl.offset ≤ suc k
      → ((after_one r w t).0.cont_to_impl.offset ≤ k)
        × ((after_one r w t).1.1.from_cont ≡ t.from_cont)
  unfolding after_one
  falls r w t k s h = elim (Bool-cases (nat_eq r.cont_to_impl.offset 0)) [
    | inl none' ↦ rw none' (ground (arith, none'), refl)
    | inr some' ↦
        let (n, e) =
          accepts.takes (waiting r.cont_to_impl) w
            (ground (arith, some', length-waiting r.cont_to_impl s.to_impl.fits)) in
        rw (some', e) (omega (arith, impl_sent-offset r n), refl)
  ]

  -- Where read and write return no more than they were asked for, from a relay that has lost and reordered nothing: once
  -- the host's terminal was ready for writing as many times as there are bytes that wait for it, and took at least one
  -- each time, it has got all that was read from the container, and it is watched for reading again.
  pub relay_events-delivered :
      (k : ℕ) (r : Relay) (w : W) (t : Traffic)
      → IsSound r t
      → r.cont_to_impl.offset ≤ k
      → let s' = relay_events (recorded io) (writes k) (r, (w, t)) in
        (s'.1.1.to_impl ≡ t.from_cont) × (s'.0.impl_watch ≡ epollin)
  unfolding relay_events after_one
  relay_events-delivered zero r w t s h =
      let empty : r.cont_to_impl.offset ≡ 0 = omega arith in
      (
        sym (append-nil t.to_impl)
            ∙ ap (λ n. t.to_impl ++ take n r.cont_to_impl.bytes) (sym empty)
            ∙ sym s.passed_on,
        elim s.to_impl.watched [ inl (e, v) ↦ v | inr (e, v) ↦ absurd (omega arith) ],
      )
  relay_events-delivered (suc k) r w t s h =
      let u = after_one r w t in
      let (less, same) = falls r w t k s h in
      let sound : IsSound u.0 u.1.1 = relay_events-IsSound io lawful (writes 1) r w t s in
      let (all', watch) = relay_events-delivered k u.0 u.1.0 u.1.1 sound less in
      (all' ∙ same, watch)
