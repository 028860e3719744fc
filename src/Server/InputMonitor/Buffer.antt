-- ===== src/Server/InputMonitor/Buffer.antt =====
-- The buffer of event times of server/input-monitor.cpp: its bound, and what one event does to it.
use vasum.Prelude.{
  ◌+◌, ◌≤◌, ◌<◌, ◌≡◌, refl, Bool, true, false, List, [], ◌∷◌, ◌++◌, Option, none, some, arith, ltb,
  length, length-append, if◌then◌else◌, Bool-cases, inl, inr,
}
use vasum.Prelude.Int.{unsigned_int}
use vasum.Server.InputMonitor.{
  InputConfig, InputEvent, Timeval, last, is_expected_kind, in_window, compare_ends,
  is_expected_event_sequence,
}

last-append : (a t : Timeval) (ts : List Timeval) → last a (ts ++ t ∷ []) ≡ t
last-append a t [] = refl
last-append a t (b ∷ bs) = last-append b t bs

abbrev tail : List Timeval → List Timeval
tail [] = []
tail (t ∷ ts) = ts

compare_ends-append :
    (c : InputConfig) (o t : Timeval) (ts : List Timeval)
    → compare_ends c (o ∷ (ts ++ t ∷ []))
      ≡ (if in_window c o t then some (true, []) else some (false, ts ++ t ∷ []))
unfolding compare_ends
compare_ends-append c o t [] = refl
compare_ends-append c o t (b ∷ bs) = rw (last-append b t bs)

-- An expected key press that fills the buffer up to the configured count is compared with the oldest time: within
-- the window it is reported and the buffer is emptied, else the oldest time leaves the buffer.
pub is_expected_event_sequence-full :
    (c : InputConfig) (oldest : Timeval) (ts : List Timeval) (ie : InputEvent)
    → is_expected_kind c ie ≡ true
    → unsigned_int c.number_of_events ≤ length (oldest ∷ ts) + 1
    → is_expected_event_sequence c (oldest ∷ ts) ie
      ≡ (if in_window c oldest ie.time then some (true, []) else some (false, ts ++ ie.time ∷ []))
unfolding is_expected_event_sequence
is_expected_event_sequence-full c oldest ts ie kind full =
    let long : ltb (length (oldest ∷ (ts ++ ie.time ∷ []))) (unsigned_int c.number_of_events)
        ≡ false =
      ground (arith, length-append ts (ie.time ∷ [])) in
    rw (kind, long) (compare_ends-append c oldest ie.time ts)

module _ (c : InputConfig) where
  -- The event is handled, and the buffer keeps its bound.
  abbrev pub Handled : Option (Bool × List Timeval) → Type 0
  Handled r =
      (b : Bool) × (ts : List Timeval) × (r ≡ some (b, ts))
      × (length ts < unsigned_int c.number_of_events)

  answer-Handled :
      (b : Bool) (ts : List Timeval)
      → length ts < unsigned_int c.number_of_events
      → Handled (if b then some (true, []) else some (false, ts))
  answer-Handled true ts h = (true, [], refl, omega arith)
  answer-Handled false ts h = (false, ts, refl, h)

  full-Handled :
      (ts : List Timeval) (ie : InputEvent)
      → 2 ≤ unsigned_int c.number_of_events
      → length ts < unsigned_int c.number_of_events
      → unsigned_int c.number_of_events ≤ length ts + 1
      → is_expected_kind c ie ≡ true
      → Handled (is_expected_event_sequence c ts ie)
  full-Handled [] ie two room full kind = absurd (omega arith)
  full-Handled (o ∷ ts) ie two room full kind =
      rw (is_expected_event_sequence-full c o ts ie kind full)
        (answer-Handled (in_window c o ie.time) _ (omega (arith, length-append ts (ie.time ∷ []))))

  short-Handled :
      (ts : List Timeval) (ie : InputEvent)
      → length ts + 1 < unsigned_int c.number_of_events
      → is_expected_kind c ie ≡ true
      → Handled (is_expected_event_sequence c ts ie)
  unfolding is_expected_event_sequence
  short-Handled ts ie room kind = (
    false,
    ts ++ ie.time ∷ [],
    ground (arith, length-append ts (ie.time ∷ [])),
    omega (arith, length-append ts (ie.time ∷ [])),
  )

  ignored-Handled :
      (ts : List Timeval) (ie : InputEvent)
      → length ts < unsigned_int c.number_of_events
      → is_expected_kind c ie ≡ false
      → Handled (is_expected_event_sequence c ts ie)
  unfolding is_expected_event_sequence
  ignored-Handled ts ie room kind = (false, ts, rw kind refl, room)

-- With at least two events configured and fewer than that many times in the buffer, every event is
-- handled without undefined behaviour, and again leaves fewer than that many times in the buffer.
pub is_expected_event_sequence-total :
    (c : InputConfig) (ts : List Timeval) (ie : InputEvent)
    → 2 ≤ unsigned_int c.number_of_events
    → length ts < unsigned_int c.number_of_events
    → Handled c (is_expected_event_sequence c ts ie)
is_expected_event_sequence-total c ts ie two room = elim (Bool-cases (is_expected_kind c ie)) [
  | inr other ↦ ignored-Handled c ts ie room other
  | inl kind ↦ elim (Bool-cases (ltb (length ts + 1) (unsigned_int c.number_of_events))) [
    | inl short ↦ short-Handled c ts ie (ground arith) kind
    | inr long ↦ full-Handled c ts ie two room (ground arith) kind
  ]
]

-- Configured for one event, or none, the monitor meets undefined behaviour at the first key press
-- that it expects: it takes the only time out of the buffer and then reads the buffer's last.
pub single_event_faults :
    (c : InputConfig) (ie : InputEvent)
    → unsigned_int c.number_of_events ≤ 1
    → is_expected_kind c ie ≡ true
    → is_expected_event_sequence c [] ie ≡ none
unfolding is_expected_event_sequence compare_ends
single_event_faults c ie one kind = ground arith

-- The time of an expected key press enters a buffer that stays below the configured count.
pub is_expected_event_sequence-short :
    (c : InputConfig) (ts : List Timeval) (ie : InputEvent)
    → length ts + 1 < unsigned_int c.number_of_events
    → is_expected_kind c ie ≡ true
    → is_expected_event_sequence c ts ie ≡ some (false, ts ++ ie.time ∷ [])
unfolding is_expected_event_sequence
is_expected_event_sequence-short c ts ie room kind = ground (arith, length-append ts (ie.time ∷ []))
