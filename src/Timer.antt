-- ===== src/Timer.antt =====
-- src/timer/mod.rs: the statics that ticks advance, and the divisor of the PIT. The port and
-- register accesses of the PIT and the HPET are device input and output and not modelled.
use delta_os.Base.{ℕ, ◌*◌, ◌/◌, Bool, Option, none, some, if◌then◌else◌, ltb, ◌==◌}
use delta_os.Base.Word.{add64}
pub mod Uptime

pub record Timer : Type 0 where
  pub tick_count : ℕ
  pub timer_hz : ℕ
  pub uptime_ms : ℕ

abbrev pub start_up : Timer
start_up = record { tick_count = 0; timer_hz = 100; uptime_ms = 0 }

abbrev pub pit_base_freq : ℕ
pit_base_freq = 1193182

-- The divisor that `Pit::init` programs.
unfoldable pub divisor : ℕ → ℕ
divisor frequency_hz =
    if frequency_hz == 0
    then 0xFFFF
    else if ltb 65535 (pit_base_freq / frequency_hz)
    then 65535
    else if ltb (pit_base_freq / frequency_hz) 1
    then 1
    else pit_base_freq / frequency_hz

unfoldable pub pit_init : Timer → ℕ → Timer
pit_init t frequency_hz = record t { timer_hz = frequency_hz }

-- The division panics at a frequency of 0: then none.
unfoldable pub on_timer_tick : Timer → Option Timer
on_timer_tick t =
    if t.timer_hz == 0
    then none
    else some (record t {
      tick_count = add64 t.tick_count 1;
      uptime_ms = add64 t.uptime_ms (1000 / t.timer_hz);
    })

unfoldable pub uptime_sec : Timer → ℕ
uptime_sec t = t.uptime_ms / 1000
