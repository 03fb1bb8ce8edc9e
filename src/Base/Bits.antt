-- ===== src/Base/Bits.antt =====
-- The bit operations on machine words, bit by bit. The libraries have no law of `bit_and` and
-- `bit_or` at variables; each is proved here from the digit recursion.
use Prim.Native.Nat.{
  ℕ, zero, suc, ◌+◌, ◌-◌, ◌*◌, ◌/◌, ◌%◌, ◌≤◌, ◌<◌, min, max, bit_and, bit_or, digits,
  bit_and-bitwise, bit_or-bitwise,
}
use mathlib.Core.Path.{◌≡◌, refl, ap}
use mathlib.Core.Logic.{◌≢◌, inl, inr}
use mathlib.Core.Bool.{false}
use native.Mathlib.Omega.{arith}
use delta_os.Base.Tests.{◌==◌, if◌then◌else◌, ==_iff, Bool-cases}

-- Bit `i` of `a`, as a number: `(a >> i) & 1`.
unfoldable pub bit : ℕ → ℕ → ℕ
bit a zero = a % 2
bit a (suc i) = bit (a / 2) i

-- `1 << i`.
unfoldable pub shl_one : ℕ → ℕ
shl_one zero = 1
shl_one (suc i) = 2 * shl_one i

-- The recursion on digits behind the native operations takes the lowest digits together, whatever
-- its fuel is, as long as there is enough.
module _ (rest : ℕ → ℕ) (op : ℕ → ℕ → ℕ) where
  digits-enough :
      (x y : ℕ) (fuel more : ℕ)
      → x ≤ fuel
      → x ≤ more
      → digits rest op fuel x y ≡ digits rest op more x y
  digits-enough zero y zero zero le le' = refl
  digits-enough zero y zero (suc more) le le' = refl
  digits-enough zero y (suc fuel) zero le le' = refl
  digits-enough zero y (suc fuel) (suc more) le le' = refl
  digits-enough (suc x) y zero more le le' = absurd (omega arith)
  digits-enough (suc x) y (suc fuel) zero le le' = absurd (omega arith)
  digits-enough (suc x) y (suc fuel) (suc more) le le' =
      let half = digits-enough (suc x / 2) (y / 2) fuel more (omega arith) (omega arith) in
      ap (λ (d : ℕ). d * 2 + op (suc x % 2) (y % 2)) half

pub bit_and_step : (a b : ℕ) → bit_and a b ≡ bit_and (a / 2) (b / 2) * 2 + min (a % 2) (b % 2)
bit_and_step zero y = rw (bit_and-bitwise 0 y, bit_and-bitwise 0 (y / 2)) (omega arith)
bit_and_step (suc x) y =
    let half =
      digits-enough (λ b. zero) min (suc x / 2) (y / 2) x (suc x / 2) (omega arith) (omega arith) in
    omega (arith, half, bit_and-bitwise (suc x / 2) (y / 2), bit_and-bitwise (suc x) y)

pub bit_or_step : (a b : ℕ) → bit_or a b ≡ bit_or (a / 2) (b / 2) * 2 + max (a % 2) (b % 2)
bit_or_step zero y = rw (bit_or-bitwise 0 y, bit_or-bitwise 0 (y / 2)) (omega arith)
bit_or_step (suc x) y =
    let half =
      digits-enough (λ b. b) max (suc x / 2) (y / 2) x (suc x / 2) (omega arith) (omega arith) in
    omega (arith, half, bit_or-bitwise (suc x / 2) (y / 2), bit_or-bitwise (suc x) y)

pub bit-lt_two : (a i : ℕ) → bit a i < 2
unfolding bit
bit-lt_two a zero = omega arith
bit-lt_two a (suc i) = bit-lt_two (a / 2) i

pub bit_of_zero : (i : ℕ) → bit 0 i ≡ 0
unfolding bit
bit_of_zero zero = refl
bit_of_zero (suc i) = bit_of_zero i

pub bit-bit_and : (a b i : ℕ) → bit (bit_and a b) i ≡ min (bit a i) (bit b i)
unfolding bit
bit-bit_and a b zero = omega (arith, bit_and_step a b)
bit-bit_and a b (suc i) =
    let half : bit_and a b / 2 ≡ bit_and (a / 2) (b / 2) = omega (arith, bit_and_step a b) in
    rw half (bit-bit_and (a / 2) (b / 2) i)

pub bit-bit_or : (a b i : ℕ) → bit (bit_or a b) i ≡ max (bit a i) (bit b i)
unfolding bit
bit-bit_or a b zero = omega (arith, bit_or_step a b)
bit-bit_or a b (suc i) =
    let half : bit_or a b / 2 ≡ bit_or (a / 2) (b / 2) = omega (arith, bit_or_step a b) in
    rw half (bit-bit_or (a / 2) (b / 2) i)

pub bit-shl_one : (i j : ℕ) → bit (shl_one i) j ≡ (if i == j then 1 else 0)
unfolding bit shl_one
bit-shl_one zero zero = refl
bit-shl_one zero (suc j) = ground (arith, bit_of_zero j)
bit-shl_one (suc i) zero = grind arith
bit-shl_one (suc i) (suc j) =
    let half : 2 * shl_one i / 2 ≡ shl_one i = omega arith in
    rw half (ground (arith, bit-shl_one i j))

pub shl_one-pos : (i : ℕ) → 0 < shl_one i
unfolding shl_one
shl_one-pos zero = omega arith
shl_one-pos (suc i) = omega (arith, shl_one-pos i)

pub bit_and_nothing : (bound x : ℕ) → x ≤ bound → bit_and x 0 ≡ 0
bit_and_nothing bound zero le = bit_and-bitwise 0 0
bit_and_nothing zero (suc x) le = absurd (omega arith)
bit_and_nothing (suc bound) (suc x) le =
    let half = bit_and_nothing bound (suc x / 2) (omega arith) in
    omega (arith, half, bit_and_step (suc x) 0)

-- `a & (1 << i)` is zero exactly when bit `i` is.
pub bit_and-shl_one : (a i : ℕ) → bit_and a (shl_one i) ≡ bit a i * shl_one i
unfolding bit shl_one
bit_and-shl_one a zero =
    omega (arith, bit_and_step a 1, bit_and_nothing (a / 2) (a / 2) (omega arith))
bit_and-shl_one a (suc i) =
    let half : 2 * shl_one i / 2 ≡ shl_one i = omega arith in
    let low : bit_and (a / 2) (2 * shl_one i / 2) ≡ bit (a / 2) i * shl_one i =
      rw half (bit_and-shl_one (a / 2) i) in
    omega (arith, bit_and_step a (2 * shl_one i), low)

pub shl_one_mono : (i w : ℕ) → i < w → shl_one i < shl_one w
unfolding shl_one
shl_one_mono zero (suc w) h = omega (arith, shl_one-pos w)
shl_one_mono zero zero h = absurd (omega arith)
shl_one_mono (suc i) zero h = absurd (omega arith)
shl_one_mono (suc i) (suc w) h = omega (arith, shl_one_mono i w (omega arith))

-- `a & (1 << i)` tests bit `i`.
pub bit_and-shl_one_test : (a i : ℕ) → (bit_and a (shl_one i) == 0) ≡ (bit a i == 0)
bit_and-shl_one_test a i = elim (Bool-cases (bit a i == 0)) [
  | inl e ↦ let z : bit a i ≡ 0 = (==_iff _ _).0 e in rw (bit_and-shl_one a i, z) (ground arith)
  | inr e ↦
      let z : bit a i ≡ 1 = ground (arith, bit-lt_two a i) in
      rw (bit_and-shl_one a i, z) (ground (arith, shl_one-pos i))
]

-- `!a` on a word of `w` bits.
unfoldable pub complement : ℕ → ℕ → ℕ
unfolding shl_one
complement w a = shl_one w - 1 - a

pub bit-complement : (w a i : ℕ) → a < shl_one w → i < w → bit (complement w a) i ≡ 1 - bit a i
unfolding bit complement shl_one
bit-complement zero a i h k = absurd (omega arith)
bit-complement (suc w) a zero h k = omega arith
bit-complement (suc w) a (suc i) h k =
    let half : complement (suc w) a / 2 ≡ complement w (a / 2) = omega arith in
    rw half (bit-complement w (a / 2) i (omega arith) (omega arith))

-- A word of `w` bits that is not zero has a bit; `trailing_zeros` finds the lowest.
unfoldable pub trailing_zeros : ℕ → ℕ → ℕ
trailing_zeros zero a = 0
trailing_zeros (suc w) a =
    let rest = suc (trailing_zeros w (a / 2)) in if a % 2 == 1 then 0 else rest

pub trailing_zeros-bit :
    (w a : ℕ) → a < shl_one w → a ≢ 0 → (trailing_zeros w a < w) × (bit a (trailing_zeros w a) ≡ 1)
unfolding trailing_zeros bit shl_one
trailing_zeros-bit zero a h k = absurd (k (omega arith))
trailing_zeros-bit (suc w) a h k = elim (Bool-cases (a % 2 == 1)) [
  | inl odd ↦ rw odd (omega arith, (==_iff _ _).0 odd)
  | inr even ↦ rw even (
      let (p, q) = trailing_zeros-bit w (a / 2) (omega arith) (λ e. k (half e even)) in
      (omega arith, q))
]
  where
    half : a / 2 ≡ 0 → (a % 2 == 1) ≡ false → a ≡ 0
    half e f = ground arith

pub trailing_zeros_least : (w a i : ℕ) → i < trailing_zeros w a → bit a i ≡ 0
unfolding trailing_zeros bit
trailing_zeros_least zero a i h = absurd (omega arith)
trailing_zeros_least (suc w) a zero h = ground arith
trailing_zeros_least (suc w) a (suc i) h = ground (arith, trailing_zeros_least w (a / 2) i)

-- Masking and setting keep a word within its width.
pub bit_and-le : (n a b : ℕ) → a ≤ n → bit_and a b ≤ a
bit_and-le n zero b h = omega (arith, bit_and-bitwise 0 b)
bit_and-le zero (suc a) b h = absurd (omega arith)
bit_and-le (suc n) (suc a) b h =
    omega (arith, bit_and_step (suc a) b, bit_and-le n (suc a / 2) (b / 2) (omega arith))

pub bit_or-lt : (w a b : ℕ) → a < shl_one w → b < shl_one w → bit_or a b < shl_one w
unfolding shl_one
bit_or-lt zero a b h k = let e : a ≡ 0 = omega arith in rw e (rw (bit_or-bitwise 0 b) k)
bit_or-lt (suc w) a b h k =
    omega (arith, bit_or_step a b, bit_or-lt w (a / 2) (b / 2) (omega arith) (omega arith))

-- `a & !(1 << s)` clears bit `s` and no other.
pub bit_clear :
    (w a s j : ℕ)
    → s < w
    → j < w
    → bit (bit_and a (complement w (shl_one s))) j ≡ (if s == j then 0 else bit a j)
bit_clear w a s j h k = ground (
  arith,
  bit-bit_and a (complement w (shl_one s)) j,
  bit-complement w (shl_one s) j (shl_one_mono s w h) k,
  bit-shl_one s j,
  bit-lt_two a j,
)

-- `a | (1 << s)` sets bit `s` and no other.
pub bit_set : (a s j : ℕ) → bit (bit_or a (shl_one s)) j ≡ (if s == j then 1 else bit a j)
bit_set a s j = ground (arith, bit-bit_or a (shl_one s) j, bit-shl_one s j, bit-lt_two a j)
