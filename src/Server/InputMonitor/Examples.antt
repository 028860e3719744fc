-- ===== src/Server/InputMonitor/Examples.antt =====
-- Runs of the input monitor, and its theorems at concrete inputs.
use vasum.Prelude.{ℕ, ◌+◌, ◌*◌, ◌≤◌, ◌≡◌, refl, true, false, List, [], ◌∷◌, some, length}
use vasum.Prelude.Int.{unsigned_int, pos, ◌+ℤ◌, ◌-ℤ◌, times, quot, ◌<ℤ◌}
use vasum.Server.InputMonitor.{
  InputConfig, InputEvent, Timeval, ConfigError, check_config, is_expected_kind, in_window,
  is_expected_event_sequence, feed, compare_ends, time_diff,
}
use vasum.Server.InputMonitor.Window.{span_us, in_window_sound}
use vasum.Server.InputMonitor.Runs.{feed-count}
use vasum.Server.InputMonitor.Presses.{reports, presses, feed-presses}

-- The configuration of server/configs/daemon.conf.in: two events within half a second.
abbrev config : InputConfig
config = record { code = pos 139; number_of_events = pos 2; time_window_ms = pos 500 }

abbrev single : InputConfig
single = record { code = pos 139; number_of_events = pos 1; time_window_ms = pos 500 }

abbrev at_us : ℕ → ℕ → Timeval
at_us s u = record { tv_sec = pos s; tv_usec = pos u }

abbrev press : Timeval → InputEvent
press t = record { time = t; type = 1; code = 139; value = pos 1 }

abbrev release : Timeval → InputEvent
release t = record { time = t; type = 1; code = 139; value = pos 0 }

abbrev double_press : List InputEvent
double_press = press (at_us 5 900000) ∷ release (at_us 5 950000) ∷ press (at_us 6 100000) ∷ []

double_press_reported : feed config [] double_press ≡ some (false ∷ false ∷ true ∷ [], [])
unfolding feed is_expected_event_sequence is_expected_kind in_window unsigned_int compare_ends
    time_diff ◌+ℤ◌ ◌-ℤ◌ times quot
double_press_reported = refl

slow_press :
    feed config [] (press (at_us 5 0) ∷ press (at_us 6 0) ∷ [])
    ≡ some (false ∷ false ∷ [], at_us 6 0 ∷ [])
unfolding feed is_expected_event_sequence is_expected_kind in_window unsigned_int compare_ends
    time_diff ◌+ℤ◌ ◌-ℤ◌ times quot
slow_press = refl

long_window : check_config (record config { time_window_ms = pos 50000 }) ≡ some ConfigError.timeout
unfolding check_config
long_window = refl

in_window_sound_example :
    (span_us (at_us 5 900000) (at_us 6 100000) <ℤ times (pos 500) 1000) × (pos 6 -ℤ pos 5 <ℤ pos 10)
unfolding in_window time_diff ◌-ℤ◌ ◌+ℤ◌ times quot
in_window_sound_example = in_window_sound config (at_us 5 900000) (at_us 6 100000) refl

feed-presses_example :
    unsigned_int config.number_of_events * reports (false ∷ false ∷ true ∷ [])
      + length {A = Timeval} []
    ≤ length {A = Timeval} [] + presses config double_press
feed-presses_example =
    feed-presses config [] [] double_press (false ∷ false ∷ true ∷ []) double_press_reported

-- Three presses are configured.
abbrev triple : InputConfig
triple = record config { number_of_events = pos 3 }

feed-count_example :
    feed triple [] (press (at_us 5 0) ∷ press (at_us 5 100000) ∷ press (at_us 5 300000) ∷ [])
    ≡ some (false ∷ false ∷ true ∷ [], [])
unfolding in_window time_diff ◌-ℤ◌ ◌+ℤ◌ times quot is_expected_kind unsigned_int
feed-count_example =
    feed-count triple (press (at_us 5 0)) (press (at_us 5 100000) ∷ []) (press (at_us 5 300000))
      refl (refl, tt) refl refl
