-- ===== src/Lxcpp/Relay/Examples.antt =====
-- The relay of the guard (libs/lxcpp/guard/guard.cpp) at concrete inputs.
use vasum.Prelude.{
  ℕ, zero, suc, ◌-◌, ◌≤◌, ◌≡◌, refl, ap, Bool, true, false, List, [], ◌∷◌, Text, lit, some, length,
  take, drop, arith,
}
use vasum.Lxcpp.Relay.{Side, cont, impl, epollin, Relay, RelayIo, new_relay, relay_events}
use vasum.Lxcpp.Relay.Fifo.{IsIo, Traffic, recorded, IsSound}
use vasum.Lxcpp.Relay.Order.{no_traffic, new_relay-IsSound, relay_events-IsSound}
use vasum.Lxcpp.Relay.Progress.{Accepts, writes, relay_events-delivered}

-- The world is what the container still writes. Each terminal takes all that it is given.
abbrev io : RelayIo Text
io = record {
  read = λ side n w. (some (take n w), drop n w);
  write = λ side bs w. (some (length bs), w);
}

length-take : (n : ℕ) (w : Text) → length (take n w) ≤ n
length-take zero w = omega arith
length-take (suc n) [] = omega arith
length-take (suc n) (b ∷ bs) = omega (arith, length-take n bs)

io-IsIo : IsIo io
io-IsIo = record {
  read_fits = λ side n w got e.
      let same : take n w ≡ got = cc (e) in omega (arith, ap length same, length-take n w);
  write_fits = λ side bs w n e. ground arith;
}

io-Accepts : Accepts io
io-Accepts = record { takes = λ bs w h. (length bs - 1, ground arith) }

abbrev hello : List (Side × Bool × Bool)
hello = (cont, true, false) ∷ (impl, false, true) ∷ []

relay_events-IsSound_example :
    let s' = relay_events (recorded io) hello (new_relay, (lit "hello", no_traffic)) in
    IsSound s'.0 s'.1.1
relay_events-IsSound_example =
    relay_events-IsSound io io-IsIo hello new_relay (lit "hello") no_traffic new_relay-IsSound

-- Five bytes wait.
abbrev loaded : Relay × (Text × Traffic)
loaded =
    relay_events (recorded io) ((cont, true, false) ∷ []) (new_relay, (lit "hello", no_traffic))

loaded-IsSound : IsSound loaded.0 loaded.1.1
loaded-IsSound =
    relay_events-IsSound io io-IsIo ((cont, true, false) ∷ []) new_relay (lit "hello") no_traffic
      new_relay-IsSound

five : loaded.0.cont_to_impl.offset ≡ 5
unfolding relay_events new_relay
five = refl

relay_events-delivered_example :
    let s' = relay_events (recorded io) (writes 5) loaded in
    (s'.1.1.to_impl ≡ loaded.1.1.from_cont) × (s'.0.impl_watch ≡ epollin)
relay_events-delivered_example =
    relay_events-delivered io io-IsIo io-Accepts 5 loaded.0 loaded.1.0 loaded.1.1 loaded-IsSound
      (omega (arith, five))
