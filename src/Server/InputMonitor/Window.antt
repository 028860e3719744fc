-- ===== src/Server/InputMonitor/Window.antt =====
-- What the time test of server/input-monitor.cpp means in microseconds.
use vasum.Prelude.{◌≡◌, true, arith}
use vasum.Prelude.Int.{
  ℤ, pos, ◌+ℤ◌, ◌-ℤ◌, times, quot, ◌≤ℤ◌, ◌<ℤ◌, +ℤ_parts, -ℤ_parts, times_parts, pos_part-quot,
  neg_part-quot, one_part_zero,
}
use vasum.Server.InputMonitor.{InputConfig, Timeval, time_diff, in_window}

-- The time between two events, in microseconds.
unfoldable pub span_us : Timeval → Timeval → ℤ
span_us oldest latest =
    times (latest.tv_sec -ℤ oldest.tv_sec) 1000000 +ℤ (latest.tv_usec -ℤ oldest.tv_usec)

diff_above : (s u : ℤ) → times s 1000000 +ℤ u <ℤ times (times s 1000 +ℤ quot u 1000 +ℤ pos 1) 1000
diff_above s u =
    omega (arith, +ℤ_parts, times_parts, pos_part-quot u, neg_part-quot u, one_part_zero u)

diff_below :
    (s u : ℤ) → times (times s 1000 +ℤ quot u 1000) 1000 <ℤ times s 1000000 +ℤ u +ℤ pos 1000
diff_below s u =
    omega (arith, +ℤ_parts, times_parts, pos_part-quot u, neg_part-quot u, one_part_zero u)

-- Where the time test says yes, the events span less than the configured window, in microseconds, and fewer than ten
-- seconds lie between their second counts.
pub in_window_sound :
    (c : InputConfig) (oldest latest : Timeval)
    → in_window c oldest latest ≡ true
    → (span_us oldest latest <ℤ times c.time_window_ms 1000)
      × (latest.tv_sec -ℤ oldest.tv_sec <ℤ pos 10)
unfolding in_window time_diff span_us
in_window_sound c oldest latest h =
    let below : time_diff oldest latest <ℤ c.time_window_ms = ground arith in
    let s = latest.tv_sec -ℤ oldest.tv_sec in
    let u = latest.tv_usec -ℤ oldest.tv_usec in
    (omega (arith, diff_above s u, times_parts, +ℤ_parts), ground arith)

-- Where the events span at least a millisecond less than the window, and fewer than ten seconds lie between their second
-- counts, the time test says yes.
pub in_window_complete :
    (c : InputConfig) (oldest latest : Timeval)
    → span_us oldest latest ≤ℤ times (c.time_window_ms -ℤ pos 1) 1000
    → latest.tv_sec -ℤ oldest.tv_sec <ℤ pos 10
    → in_window c oldest latest ≡ true
unfolding in_window time_diff span_us
in_window_complete c oldest latest h k =
    let s = latest.tv_sec -ℤ oldest.tv_sec in
    let u = latest.tv_usec -ℤ oldest.tv_usec in
    let below : time_diff oldest latest <ℤ c.time_window_ms =
      omega (arith, diff_below s u, times_parts, +ℤ_parts, -ℤ_parts) in
    ground arith
