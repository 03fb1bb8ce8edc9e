-- ===== src/Timer/Uptime.antt =====
-- src/timer/mod.rs: the tick count and the uptime after a number of ticks.
use delta_os.Base.{
  ℕ, zero, suc, ◌+◌, ◌*◌, ◌/◌, ◌%◌, ◌<◌, ◌≤◌, ◌≡◌, refl, ◌∙◌, ap, Option, none, some, arith, ==_ne,
}
use delta_os.Base.Word.{u64_mod, add64}
use delta_os.Timer.{Timer, divisor, on_timer_tick}

unfoldable pub ticked : ℕ → Timer → Option Timer
ticked zero t = some t
ticked (suc n) t = elim (on_timer_tick t) [ none ↦ none | some t' ↦ ticked n t' ]

pub on_timer_tick-some :
    (t : Timer)
    → 0 < t.timer_hz
    → on_timer_tick t
      ≡ some (record t {
        tick_count = add64 t.tick_count 1;
        uptime_ms = add64 t.uptime_ms (1000 / t.timer_hz);
      })
unfolding on_timer_tick
on_timer_tick-some t h = rw (==_ne t.timer_hz 0 (omega arith))

period : (a n d : ℕ) → (add64 a d + n * d) % u64_mod ≡ (a + suc n * d) % u64_mod
period a n d = grind arith

-- At a frequency above 0, `n` ticks take a timer to one of the same frequency with `n` more ticks
-- and, for each tick, the whole milliseconds of a period more, on words that wrap.
pub ticked_lem :
    (n : ℕ) (t : Timer)
    → 0 < t.timer_hz
    → (t' : Timer) × (ticked n t ≡ some t')
      × (t'.timer_hz ≡ t.timer_hz)
      × (t'.tick_count % u64_mod ≡ (t.tick_count + n) % u64_mod)
      × (t'.uptime_ms % u64_mod ≡ (t.uptime_ms + n * (1000 / t.timer_hz)) % u64_mod)
unfolding ticked
ticked_lem zero t h = (t, refl, refl, omega arith, omega arith)
ticked_lem (suc n) t h =
    let d : ℕ = 1000 / t.timer_hz in
    let once : Timer = record t {
      tick_count = add64 t.tick_count 1;
      uptime_ms = add64 t.uptime_ms d;
    } in
    let next : ticked (suc n) t ≡ ticked n once =
      ap
        (λ (o : Option Timer). elim o as (λ x. Option Timer) [
          | none ↦ none
          | some t' ↦ ticked n t'
        ])
        (on_timer_tick-some t h) in
    let (t', e, hz, c, u) = ticked_lem n once h in
    (t', next ∙ e, hz, c ∙ omega arith, u ∙ period t.uptime_ms n d)

-- The divisor that the PIT is programmed with is a 16-bit word and not 0, at any frequency.
pub divisor_bounds : (hz : ℕ) → (1 ≤ divisor hz) × (divisor hz ≤ 65535)
unfolding divisor
divisor_bounds hz = ground arith
