-- ===== src/Server/InputMonitor/Presses.antt =====
-- How many key presses each report of server/input-monitor.cpp costs.
use vasum.Prelude.{
  ℕ, ◌+◌, ◌*◌, ◌≤◌, ◌≡◌, Bool, true, false, List, [], ◌∷◌, ◌++◌, some, arith, length, length-append,
  Option-cases, inl, inr,
}
use vasum.Prelude.Int.{unsigned_int}
use vasum.Server.InputMonitor.{
  InputConfig, InputEvent, Timeval, is_expected_kind, compare_ends, is_expected_event_sequence,
  feed,
}

abbrev one_if : Bool → ℕ
one_if true = 1
one_if false = 0

-- How many of the answers are reports.
abbrev pub reports : List Bool → ℕ
reports [] = 0
reports (b ∷ bs) = one_if b + reports bs

-- How many of the events are expected key presses.
abbrev pub presses : InputConfig → List InputEvent → ℕ
presses c [] = 0
presses c (ie ∷ ies) = one_if (is_expected_kind c ie) + presses c ies

ends_cost :
    (c : InputConfig) (ts ts' : List Timeval) (b : Bool)
    → unsigned_int c.number_of_events ≤ length ts
    → compare_ends c ts ≡ some (b, ts')
    → unsigned_int c.number_of_events * one_if b + length ts' ≤ length ts
unfolding compare_ends
ends_cost c [] ts' b h e = cc
ends_cost c (o ∷ []) ts' b h e = cc
ends_cost c (o ∷ t ∷ ts) ts' b h e = ground arith

event_cost :
    (c : InputConfig) (ts ts' : List Timeval) (ie : InputEvent) (b : Bool)
    → is_expected_event_sequence c ts ie ≡ some (b, ts')
    → unsigned_int c.number_of_events * one_if b + length ts'
      ≤ length ts + one_if (is_expected_kind c ie)
unfolding is_expected_event_sequence
event_cost c ts ts' ie b e =
    ground (arith, length-append ts (ie.time ∷ []), ends_cost c (ts ++ ie.time ∷ []) ts' b)

-- A run over one more event, taken apart.
feed-cons :
    (c : InputConfig) (ts ts' : List Timeval) (ie : InputEvent) (ies : List InputEvent)
    (bs : List Bool)
    → feed c ts (ie ∷ ies) ≡ some (bs, ts')
    → (b : Bool) × (mid : List Timeval) × (rest : List Bool) × (is_expected_event_sequence c ts ie
        ≡ some (b, mid))
      × (feed c mid ies ≡ some (rest, ts'))
      × (bs ≡ b ∷ rest)
unfolding feed
feed-cons c ts ts' ie ies bs e = elim (Option-cases (is_expected_event_sequence c ts ie)) [
  | inl stuck ↦ ground arith
  | inr ((b, mid), went) ↦ elim (Option-cases (feed c mid ies)) [
    | inl stuck ↦ ground arith
    | inr ((rest, end), run) ↦ (b, mid, rest, went, ground arith, ground arith)
  ]
]

-- Over any run, each report uses up as many expected key presses as are configured: the reports,
-- counted that many times, and the times left in the buffer are no more than the presses and the times
-- that were in the buffer before.
pub feed-presses :
    (c : InputConfig) (ts ts' : List Timeval) (ies : List InputEvent) (bs : List Bool)
    → feed c ts ies ≡ some (bs, ts')
    → unsigned_int c.number_of_events * reports bs + length ts' ≤ length ts + presses c ies
feed-presses c ts ts' [] bs e = unfold feed in ground arith
feed-presses c ts ts' (ie ∷ ies) bs e =
    let (b, mid, rest, went, run, same) = feed-cons c ts ts' ie ies bs e in
    rw same (omega (arith, event_cost c ts mid ie b went, feed-presses c mid ts' ies rest run))
