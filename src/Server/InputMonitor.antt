-- ===== src/Server/InputMonitor.antt =====
-- The key-press monitor that switches zones (server/input-monitor.cpp, server/input-monitor-config.hpp).
-- Modelled: the checks of the constructor and `isExpectedEventSequence`. Times are integers that
-- do not wrap; `none` stands for undefined behaviour (`front` or `back` of an empty list).
pub mod Window
pub mod Buffer
pub mod Presses
pub mod Runs
pub mod Examples
use vasum.Prelude.{
  ℕ, zero, suc, ◌+◌, ◌-◌, Bool, true, false, ◌||◌, List, [], ◌∷◌, ◌++◌, Option, none, some, ltb,
  nat_eq, not, length, if◌then◌else◌,
}
use vasum.Prelude.Int.{ℤ, pos, negsuc, ◌+ℤ◌, ◌-ℤ◌, times, quot, ltb_ℤ, leb_ℤ, eq_ℤ, unsigned_int}

pub record InputConfig : Type 0 where
  pub code : ℤ
  pub number_of_events : ℤ
  pub time_window_ms : ℤ

-- struct timeval
pub record Timeval : Type 0 where
  pub tv_sec : ℤ
  pub tv_usec : ℤ

-- struct input_event
pub record InputEvent : Type 0 where
  pub time : Timeval
  pub type : ℕ
  pub code : ℕ
  pub value : ℤ

abbrev pub max_time_window_sec : ℕ
max_time_window_sec = 10

abbrev pub max_number_of_events : ℕ
max_number_of_events = 10

abbrev pub ev_key : ℕ
ev_key = 1

abbrev pub key_pressed : ℤ
key_pressed = pos 1

pub data ConfigError : Type 0 where
  timeout input_monitor : ConfigError

-- The checks of the constructor; the search for the device comes after them.
pub check_config : InputConfig → Option ConfigError
check_config c =
    if ltb_ℤ (pos 10000) c.time_window_ms
    then some timeout
    else if ltb_ℤ (pos max_number_of_events) c.number_of_events
    then some input_monitor
    else none

abbrev pub last {ℓ} : {A : Type ℓ} → A → List A → A
last a [] = a
last a (b ∷ bs) = last b bs

-- The events that the configuration waits for.
pub is_expected_kind : InputConfig → InputEvent → Bool
is_expected_kind c ie = not (
    not (nat_eq ie.type ev_key)
    || not (eq_ℤ (pos ie.code) c.code)
    || not (eq_ℤ ie.value key_pressed))

-- (latest.tv_sec - oldest.tv_sec) * 1000L + (latest.tv_usec - oldest.tv_usec) / 1000L
unfoldable pub time_diff : Timeval → Timeval → ℤ
time_diff oldest latest =
    times (latest.tv_sec -ℤ oldest.tv_sec) 1000 +ℤ quot (latest.tv_usec -ℤ oldest.tv_usec) 1000

pub in_window : InputConfig → Timeval → Timeval → Bool
in_window c oldest latest =
    if leb_ℤ (pos max_time_window_sec) (latest.tv_sec -ℤ oldest.tv_sec)
    then false
    else ltb_ℤ (time_diff oldest latest) c.time_window_ms

-- The part after the length check: takes the oldest time off, and compares it with the latest.
pub compare_ends : InputConfig → List Timeval → Option (Bool × List Timeval)
compare_ends c [] = none
compare_ends c (oldest ∷ []) = none
compare_ends c (oldest ∷ t ∷ ts) =
    if in_window c oldest (last t ts) then some (true, []) else some (false, t ∷ ts)

-- InputMonitor::isExpectedEventSequence over mEventTimes.
pub is_expected_event_sequence :
    InputConfig → List Timeval → InputEvent → Option (Bool × List Timeval)
is_expected_event_sequence c event_times ie =
    if not (is_expected_kind c ie)
    then some (false, event_times)
    else if ltb (length (event_times ++ ie.time ∷ [])) (unsigned_int c.number_of_events)
    then some (false, event_times ++ ie.time ∷ [])
    else compare_ends c (event_times ++ ie.time ∷ [])

-- The answers to a sequence of events, and the buffer that they leave.
pub feed : InputConfig → List Timeval → List InputEvent → Option (List Bool × List Timeval)
feed c ts [] = some ([], ts)
feed c ts (ie ∷ ies) = elim (is_expected_event_sequence c ts ie) [
  | none ↦ none
  | some (b, ts') ↦ elim (feed c ts' ies) [ none ↦ none | some (bs, ts'') ↦ some (b ∷ bs, ts'') ]
]
