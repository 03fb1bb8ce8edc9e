-- ===== src/Task/Signals.antt =====
-- src/sched/task.rs: sending, testing and taking signals, seen bit by bit.
use Prim.Native.Nat.{bit_and}
use delta_os.Base.{
  ℕ, ◌-◌, ◌<◌, ◌≡◌, refl, ◌≢◌, ◌⊎◌, inl, inr, not, ◌&&◌, ◌||◌, none, some, arith, ltb, ◌==◌, ==_ne,
  ap, Bool-cases, ltb→lt, min,
}
use native.Mathlib.Decide.{ℕ_discrete}
use delta_os.Base.Bits.{
  bit, shl_one, complement, trailing_zeros, bit-lt_two, bit-bit_and, bit-bit_or, bit-shl_one,
  bit-complement, trailing_zeros-bit, trailing_zeros_least, bit_and-le, bit_or-lt, shl_one_mono,
  bit_and-shl_one_test, bit_of_zero, bit_clear,
}
use delta_os.Task.{Task, send_signal, has_signal, deliverable, pop_signal}

-- Both masks are `u32` words.
pub record HasWords (t : Task) : Type 0 where
  pub pending : t.pending_signals < shl_one 32
  pub blocked : t.blocked_signals < shl_one 32

has_signal-bit : (t : Task) (s : ℕ) → has_signal t s ≡ (ltb s 32 && (bit t.pending_signals s == 1))
unfolding has_signal
has_signal-bit t s = elim (Bool-cases (ltb s 32)) [
  | inl e ↦
      rw (e, bit_and-shl_one_test t.pending_signals s)
        (ground (arith, bit-lt_two t.pending_signals s))
  | inr e ↦ rw e
]

-- After `send_signal t s` the task has the signals that it had, and `s` if `s` is below 32.
pub has_signal-send_signal :
    (t : Task) (s j : ℕ)
    → has_signal (send_signal t s) j ≡ ((ltb s 32 && (s == j)) || has_signal t j)
unfolding send_signal
has_signal-send_signal t s j = ground (
  arith,
  has_signal-bit t j,
  has_signal-bit (send_signal t s) j,
  bit-bit_or t.pending_signals (shl_one s) j,
  bit-shl_one s j,
  bit-lt_two t.pending_signals j,
)

pub send_signal-HasWords : {t : Task} (s : ℕ) → HasWords t → HasWords (send_signal t s)
unfolding send_signal
send_signal-HasWords {t} s w = elim (Bool-cases (ltb s 32)) [
  | inl e ↦ rw e (record {
    pending =
        bit_or-lt 32 t.pending_signals (shl_one s) w.pending (shl_one_mono s 32 (ltb→lt s 32 e));
    blocked = w.blocked;
  })
  | inr e ↦ rw e w
]

-- Bit `i` of `pending & !blocked`.
bit-deliverable :
    {t : Task}
    → HasWords t
    → (i : ℕ) → i < 32
    → bit (deliverable t) i ≡ min (bit t.pending_signals i) (1 - bit t.blocked_signals i)
unfolding deliverable
bit-deliverable {t} w i h =
    rw
      (
        bit-bit_and t.pending_signals (complement 32 t.blocked_signals) i,
        bit-complement 32 t.blocked_signals i w.blocked h,
      )
      refl

-- The signal is pending and not blocked.
abbrev pub Deliverable : Task → ℕ → Type 0
Deliverable t i = (i < 32) × (bit t.pending_signals i ≡ 1) × (bit t.blocked_signals i ≡ 0)

Deliverable-bit : {t : Task} → HasWords t → (i : ℕ) → Deliverable t i → bit (deliverable t) i ≡ 1
Deliverable-bit {t} w i (h, p, b) = omega (arith, bit-deliverable w i h)

bit-Deliverable :
    {t : Task} → HasWords t → (i : ℕ) → i < 32 → bit (deliverable t) i ≡ 1 → Deliverable t i
bit-Deliverable {t} w i h e =
    omega
      (arith, bit-deliverable w i h, bit-lt_two t.pending_signals i, bit-lt_two t.blocked_signals i)

deliverable-lt : {t : Task} → HasWords t → deliverable t < shl_one 32
unfolding deliverable
deliverable-lt {t} w = omega (
  arith,
  bit_and-le t.pending_signals t.pending_signals (complement 32 t.blocked_signals),
  w.pending,
)

-- What `pop_signal` promises: nothing is deliverable and it changes nothing; or it returns the
-- lowest deliverable signal and clears that one alone.
abbrev pub Pops : Task → Type 0
Pops t =
    (((i : ℕ) → ¬ Deliverable t i) × (pop_signal t ≡ (none, t)))
    ⊎ ((s : ℕ) × Deliverable t s
        × ((j : ℕ) → j < s → ¬ Deliverable t j)
        × ((pop_signal t).0 ≡ some s)
        × ((j : ℕ) → has_signal (pop_signal t).1 j ≡ (has_signal t j && not (s == j)))
        × ((pop_signal t).1.blocked_signals ≡ t.blocked_signals))

module _ {t : Task} (w : HasWords t) where
  pop_signal-none : deliverable t ≡ 0 → Pops t
  unfolding pop_signal
  pop_signal-none e =
      inl (
        λ i d. ground (arith, Deliverable-bit w i d, bit_of_zero i, ap (λ (x : ℕ). bit x i) e),
        rw e,
      )

  pop_signal-some : deliverable t ≢ 0 → Pops t
  unfolding pop_signal
  pop_signal-some ne = inr (
    trailing_zeros 32 (deliverable t),
    bit-Deliverable w _ found.0 found.1,
    λ j h d. ground (arith, Deliverable-bit w j d, trailing_zeros_least 32 (deliverable t) j h),
    rw (==_ne _ _ ne),
    λ j. cleared j,
    rw (==_ne _ _ ne),
  )
    where
      found :
          (trailing_zeros 32 (deliverable t) < 32)
          × (bit (deliverable t) (trailing_zeros 32 (deliverable t)) ≡ 1)
      found = trailing_zeros-bit 32 (deliverable t) (deliverable-lt w) ne

      cleared :
          (j : ℕ)
          → has_signal (pop_signal t).1 j
            ≡ (has_signal t j && not (trailing_zeros 32 (deliverable t) == j))
      cleared j = rw (==_ne _ _ ne) (
          ground (
            arith,
            has_signal-bit
                (record t {
                  pending_signals =
                      bit_and t.pending_signals
                        (complement 32 (shl_one (trailing_zeros 32 (deliverable t))));
                })
                j,
            has_signal-bit t j,
            bit_clear 32 t.pending_signals (trailing_zeros 32 (deliverable t)) j found.0,
          ))

-- On 32-bit masks `pop_signal` either finds no pending signal that is not blocked and changes
-- nothing, or returns the lowest one and clears that signal and no other.
pub pop_signal-Pops : (t : Task) → HasWords t → Pops t
pop_signal-Pops t w = elim (ℕ_discrete (deliverable t) 0) [
  | yes e ↦ pop_signal-none w e
  | no ne ↦ pop_signal-some w ne
]

pub pop_signal-HasWords : {t : Task} → HasWords t → HasWords (pop_signal t).1
unfolding pop_signal
pop_signal-HasWords {t} w = ground (
  arith,
  w.pending,
  w.blocked,
  bit_and-le t.pending_signals t.pending_signals
      (complement 32 (shl_one (trailing_zeros 32 (deliverable t)))),
)
