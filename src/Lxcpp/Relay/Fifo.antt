-- ===== src/Lxcpp/Relay/Fifo.antt =====
-- The relay of the guard (libs/lxcpp/guard/guard.cpp) passes the bytes of each direction on in their order, none lost and
-- none made up, and keeps within its arrays.
use mathlib.Core.List.{append_assoc, append-nil}
use vasum.Prelude.{
  ℕ, zero, suc, ◌+◌, ◌-◌, ◌≤◌, ◌<◌, ◌≡◌, ◌⊎◌, inl, inr, refl, sym, ap, ◌∙◌, true, false, [], ◌∷◌,
  ◌++◌, Text, Option, none, some, length, take, nat_eq, Bool-cases, arith,
}
use vasum.Lxcpp.Relay.{
  Buffer, buffer_size, Side, cont, impl, Watch, epollin, epollout, Relay, RelayIo, fill, drain,
  waiting, cont_received, cont_sent, impl_received, impl_sent,
}
use vasum.Lxcpp.Relay.Buffers.{Fits, fill-waiting, fill-Fits, drain-waiting, drain-Fits}

-- The calls return no more than they were asked for.
pub record IsIo {W : Type 0} (io : RelayIo W) : Type 0 where
  pub read_fits :
      (side : Side) (n : ℕ) (w : W) (got : Text) → (io.read side n w).0 ≡ some got → length got ≤ n
  pub write_fits :
      (side : Side) (bs : Text) (w : W) (n : ℕ) → (io.write side bs w).0 ≡ some n → n ≤ length bs

-- All that was read from a terminal, and all that was written to it.
pub record Traffic : Type 0 where
  pub from_cont : Text
  pub to_impl : Text
  pub from_impl : Text
  pub to_cont : Text

abbrev pub saw_read : Side → Option Text → Traffic → Traffic
saw_read side none t = t
saw_read cont (some got) t = record t { from_cont = t.from_cont ++ got }
saw_read impl (some got) t = record t { from_impl = t.from_impl ++ got }

abbrev pub saw_write : Side → Text → Option ℕ → Traffic → Traffic
saw_write side bs none t = t
saw_write cont bs (some n) t = record t { to_cont = t.to_cont ++ take n bs }
saw_write impl bs (some n) t = record t { to_impl = t.to_impl ++ take n bs }

-- The same calls, which also record the traffic.
abbrev pub recorded : {W : Type 0} → RelayIo W → RelayIo (W × Traffic)
recorded io = record {
  read = λ side n s. let (got, w) = io.read side n s.0 in (got, (w, saw_read side got s.1));
  write = λ side bs s. let (n, w) = io.write side bs s.0 in (n, (w, saw_write side bs n s.1));
}

-- The array is kept within, and a side is watched for writing as long as bytes wait for it, and for reading otherwise.
pub record IsWatched (b : Buffer) (watch : Watch) : Type 0 where
  pub fits : Fits b
  pub watched : ((b.offset ≡ 0) × (watch ≡ epollin)) ⊎ ((0 < b.offset) × (watch ≡ epollout))

-- What was read on one side is what was written to the other and what waits, in this order.
pub record IsSound (r : Relay) (t : Traffic) : Type 0 where
  pub to_impl : IsWatched r.cont_to_impl r.impl_watch
  pub to_cont : IsWatched r.impl_to_cont r.cont_watch
  pub passed_on : t.from_cont ≡ t.to_impl ++ waiting r.cont_to_impl
  pub passed_back : t.from_impl ≡ t.to_cont ++ waiting r.impl_to_cont

put_behind :
    (front : Text) (b : Buffer) (got all' : Text)
    → Fits b
    → b.offset + length got ≤ buffer_size
    → all' ≡ front ++ waiting b
    → all' ++ got ≡ front ++ waiting (fill b got)
put_behind front b got all' f room e =
    rw (fill-waiting b got f room, e) (append_assoc front (waiting b) got)

taken_out :
    (front : Text) (b : Buffer) (n : ℕ) (all' : Text)
    → Fits b
    → n ≤ b.offset
    → all' ≡ front ++ waiting b
    → all' ≡ (front ++ take n (waiting b)) ++ waiting (drain b n)
taken_out front b n all' f fits e =
    e
    ∙ ap (λ l. front ++ l) (sym (drain-waiting b n f fits))
    ∙ sym (append_assoc front (take n (waiting b)) (waiting (drain b n)))

received-IsWatched :
    (b : Buffer) (x : ℕ) (xs : Text)
    → Fits b
    → b.offset + length (x ∷ xs) ≤ buffer_size
    → IsWatched (fill b (x ∷ xs)) epollout
unfolding fill
received-IsWatched b x xs f room = record {
  fits = fill-Fits b (x ∷ xs) f room;
  watched = inr (omega arith, refl);
}

-- Where bytes wait, the side is watched for writing.
waits-epollout : (b : Buffer) (watch : Watch) → IsWatched b watch → 0 < b.offset → watch ≡ epollout
waits-epollout b watch w some_waits = elim w.watched [
  | inl (none', e) ↦ absurd (omega arith)
  | inr (some', e) ↦ e
]

drained-IsWatched :
    (b : Buffer) (n : ℕ) (watch : Watch)
    → IsWatched b watch
    → suc n ≤ b.offset
    → ((nat_eq (b.offset - suc n) 0 ≡ true) × IsWatched (drain b (suc n)) epollin)
      ⊎ ((nat_eq (b.offset - suc n) 0 ≡ false) × IsWatched (drain b (suc n)) watch)
unfolding drain
drained-IsWatched b n watch w fits =
    let same = waits-epollout b watch w (omega arith) in
    let kept = drain-Fits b (suc n) w.fits fits in
    elim (Bool-cases (nat_eq (b.offset - suc n) 0)) [
      | inl empty ↦ inl (empty, record { fits = kept; watched = inl (ground (arith, empty), refl) })
      | inr more ↦ inr (more, record { fits = kept; watched = inr (ground (arith, more), same) })
    ]

module _ (r : Relay) (t : Traffic) (s : IsSound r t) where
  pub cont_received-IsSound :
      (got : Option Text)
      → ((bs : Text) → got ≡ some bs → length bs ≤ buffer_size - r.cont_to_impl.offset)
      → IsSound (cont_received r got) (saw_read cont got t)
  unfolding cont_received
  cont_received-IsSound none fits = s
  cont_received-IsSound (some []) fits = record {
    to_impl = s.to_impl;
    to_cont = s.to_cont;
    passed_on = append-nil t.from_cont ∙ s.passed_on;
    passed_back = s.passed_back;
  }
  cont_received-IsSound (some (x ∷ xs)) fits =
      let b = r.cont_to_impl in
      let room : b.offset + length (x ∷ xs) ≤ buffer_size =
        omega (arith, fits (x ∷ xs) refl, s.to_impl.fits.within) in
      let more : nat_eq (b.offset + length (x ∷ xs)) 0 ≡ false = ground arith in
      unfold fill in
      rw more (record {
        to_impl = received-IsWatched b x xs s.to_impl.fits room;
        to_cont = s.to_cont;
        passed_on = put_behind t.to_impl b (x ∷ xs) t.from_cont s.to_impl.fits room s.passed_on;
        passed_back = s.passed_back;
      })

  pub impl_received-IsSound :
      (got : Option Text)
      → ((bs : Text) → got ≡ some bs → length bs ≤ buffer_size - r.impl_to_cont.offset)
      → IsSound (impl_received r got) (saw_read impl got t)
  unfolding impl_received
  impl_received-IsSound none fits = s
  impl_received-IsSound (some []) fits = record {
    to_impl = s.to_impl;
    to_cont = s.to_cont;
    passed_back = append-nil t.from_impl ∙ s.passed_back;
    passed_on = s.passed_on;
  }
  impl_received-IsSound (some (x ∷ xs)) fits =
      let b = r.impl_to_cont in
      let room : b.offset + length (x ∷ xs) ≤ buffer_size =
        omega (arith, fits (x ∷ xs) refl, s.to_cont.fits.within) in
      let more : nat_eq (b.offset + length (x ∷ xs)) 0 ≡ false = ground arith in
      unfold fill in
      rw more (record {
        to_cont = received-IsWatched b x xs s.to_cont.fits room;
        to_impl = s.to_impl;
        passed_back = put_behind t.to_cont b (x ∷ xs) t.from_impl s.to_cont.fits room s.passed_back;
        passed_on = s.passed_on;
      })

  pub cont_sent-IsSound :
      (written : Option ℕ)
      → ((n : ℕ) → written ≡ some n → n ≤ r.impl_to_cont.offset)
      → IsSound (cont_sent r written) (saw_write cont (waiting r.impl_to_cont) written t)
  unfolding cont_sent
  cont_sent-IsSound none fits = s
  cont_sent-IsSound (some zero) fits = record {
    to_impl = s.to_impl;
    to_cont = s.to_cont;
    passed_back =
        s.passed_back ∙ ap (λ l. l ++ waiting r.impl_to_cont) (sym (append-nil t.to_cont));
    passed_on = s.passed_on;
  }
  cont_sent-IsSound (some (suc n)) fits =
      let b = r.impl_to_cont in
      let out =
        taken_out t.to_cont b (suc n) t.from_impl s.to_cont.fits (fits (suc n) refl)
          s.passed_back in
      unfold drain in
      elim (drained-IsWatched b n r.cont_watch s.to_cont (fits (suc n) refl)) [
        | inl (empty, w) ↦ rw empty (record {
          to_cont = w;
          to_impl = s.to_impl;
          passed_back = out;
          passed_on = s.passed_on;
        })
        | inr (more, w) ↦ rw more (record {
          to_cont = w;
          to_impl = s.to_impl;
          passed_back = out;
          passed_on = s.passed_on;
        })
      ]

  pub impl_sent-IsSound :
      (written : Option ℕ)
      → ((n : ℕ) → written ≡ some n → n ≤ r.cont_to_impl.offset)
      → IsSound (impl_sent r written) (saw_write impl (waiting r.cont_to_impl) written t)
  unfolding impl_sent
  impl_sent-IsSound none fits = s
  impl_sent-IsSound (some zero) fits = record {
    to_impl = s.to_impl;
    to_cont = s.to_cont;
    passed_on = s.passed_on ∙ ap (λ l. l ++ waiting r.cont_to_impl) (sym (append-nil t.to_impl));
    passed_back = s.passed_back;
  }
  impl_sent-IsSound (some (suc n)) fits =
      let b = r.cont_to_impl in
      let out =
        taken_out t.to_impl b (suc n) t.from_cont s.to_impl.fits (fits (suc n) refl) s.passed_on in
      unfold drain in
      elim (drained-IsWatched b n r.impl_watch s.to_impl (fits (suc n) refl)) [
        | inl (empty, w) ↦ rw empty (record {
          to_impl = w;
          to_cont = s.to_cont;
          passed_on = out;
          passed_back = s.passed_back;
        })
        | inr (more, w) ↦ rw more (record {
          to_impl = w;
          to_cont = s.to_cont;
          passed_on = out;
          passed_back = s.passed_back;
        })
      ]
