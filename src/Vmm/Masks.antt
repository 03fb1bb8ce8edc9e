-- ===== src/Vmm/Masks.antt =====
-- src/memory/vmm.rs: the masks of an address and of an entry, as arithmetic.
use Prim.Native.Nat.{bit_and, bit_or, bit_or-bitwise}
use native.Mathlib.Nat.{
  add-mul-mod_self_left, mod-eq_of_lt, mod-lt, mod-add-div, mul_assoc, div-div-eq-div-mul, div-one,
  mod-one,
}
use delta_os.Base.{
  ℕ, zero, suc, ◌+◌, ◌-◌, ◌*◌, ◌/◌, ◌%◌, ◌^◌, ◌≤◌, ◌<◌, ◌≡◌, refl, sym, ap, ◌∙◌, arith, not, ◌==◌,
}
use delta_os.Vmm.{frame, has_flag}
use delta_os.Vmm.PageFlags.{present, huge_page}
use delta_os.Base.Bits.{
  bit, shl_one, shl_one-pos, bit_and_step, bit_or_step, bit_and_nothing, bit_and-shl_one_test,
}

mod_unique : (m q r : ℕ) → r < m → (r + m * q) % m ≡ r
mod_unique m q r h = rw (add-mul-mod_self_left r m q) (mod-eq_of_lt h)

mod_half : (x s : ℕ) → 0 < s → x % (2 * s) ≡ x / 2 % s * 2 + x % 2
mod_half x s h =
    let e : x ≡ (x / 2 % s * 2 + x % 2) + 2 * s * (x / 2 / s) =
      omega (arith, mod-add-div (x / 2) s, mul_assoc 2 s (x / 2 / s)) in
    ap (λ (z : ℕ). z % (2 * s)) e
    ∙ (mod_unique (2 * s) (x / 2 / s) (x / 2 % s * 2 + x % 2) (omega (arith, mod-lt (x / 2) h)))

-- A mask of the lowest bits.
pub bit_and_low : (n x : ℕ) → bit_and x (shl_one n - 1) ≡ x % shl_one n
unfolding shl_one
bit_and_low zero x = omega (arith, bit_and_nothing x x (omega arith))
bit_and_low (suc n) x =
    let half : (2 * shl_one n - 1) / 2 ≡ shl_one n - 1 = omega (arith, shl_one-pos n) in
    let low : bit_and (x / 2) ((2 * shl_one n - 1) / 2) ≡ x / 2 % shl_one n =
      rw half (bit_and_low n (x / 2)) in
    omega (
      arith,
      bit_and_step x (2 * shl_one n - 1),
      low,
      mod_half x (shl_one n) (shl_one-pos n),
      shl_one-pos n,
    )

-- Bits of a word behind its lowest ones.
pub bit_and_high : (k x y : ℕ) → bit_and x (shl_one k * y) ≡ shl_one k * bit_and (x / shl_one k) y
unfolding shl_one
bit_and_high zero x y =
    let e : 1 * y ≡ y = omega arith in let f : x / 1 ≡ x = omega arith in rw (e, f) (omega arith)
bit_and_high (suc k) x y =
    let step = bit_and_step x (2 * shl_one k * y) in
    let a : 2 * shl_one k * y / 2 ≡ shl_one k * y = grind arith in
    let b : 2 * shl_one k * y % 2 ≡ 0 = grind arith in
    let low : bit_and (x / 2) (2 * shl_one k * y / 2) ≡ shl_one k * bit_and (x / 2 / shl_one k) y =
      rw a (bit_and_high k (x / 2) y) in
    let c : bit_and (x / 2 / shl_one k) y ≡ bit_and (x / (2 * shl_one k)) y =
      rw (div-div-eq-div-mul x 2 (shl_one k)) refl in
    let d : 2 * shl_one k * bit_and (x / (2 * shl_one k)) y
        ≡ 2 * (shl_one k * bit_and (x / (2 * shl_one k)) y) =
      mul_assoc 2 (shl_one k) _ in
    omega (arith, step, low, b, d, ap (λ (z : ℕ). shl_one k * z) c)

pub bit_or_div : (k x y : ℕ) → bit_or x y / shl_one k ≡ bit_or (x / shl_one k) (y / shl_one k)
unfolding shl_one
bit_or_div zero x y = rw (div-one (bit_or x y), div-one x, div-one y) refl
bit_or_div (suc k) x y =
    let half : bit_or x y / 2 ≡ bit_or (x / 2) (y / 2) = omega (arith, bit_or_step x y) in
    rw
      (
        sym (div-div-eq-div-mul (bit_or x y) 2 (shl_one k)),
        sym (div-div-eq-div-mul x 2 (shl_one k)),
        sym (div-div-eq-div-mul y 2 (shl_one k)),
        half,
      )
      (bit_or_div k (x / 2) (y / 2))

pub bit_or_mod : (k x y : ℕ) → bit_or x y % shl_one k ≡ bit_or (x % shl_one k) (y % shl_one k)
unfolding shl_one
bit_or_mod zero x y = rw (mod-one (bit_or x y), mod-one x, mod-one y) (sym (bit_or-bitwise 0 0))
bit_or_mod (suc k) x y =
    let s : ℕ = shl_one k in
    let half : bit_or x y / 2 ≡ bit_or (x / 2) (y / 2) = omega (arith, bit_or_step x y) in
    let left : bit_or x y % (2 * s) ≡ bit_or (x / 2 % s) (y / 2 % s) * 2 + bit_or x y % 2 =
      mod_half (bit_or x y) s (shl_one-pos k)
      ∙ ap (λ (z : ℕ). z * 2 + bit_or x y % 2)
          (ap (λ (z : ℕ). z % s) half ∙ bit_or_mod k (x / 2) (y / 2)) in
    let a = mod_half x s (shl_one-pos k) in
    let b = mod_half y s (shl_one-pos k) in
    let a' : x % (2 * s) / 2 ≡ x / 2 % s = omega (arith, a) in
    let b' : y % (2 * s) / 2 ≡ y / 2 % s = omega (arith, b) in
    let right = bit_or_step (x % (2 * s)) (y % (2 * s)) in
    let right' : bit_or (x % (2 * s) / 2) (y % (2 * s) / 2) ≡ bit_or (x / 2 % s) (y / 2 % s) =
      rw (a', b') refl in
    omega (arith, left, right, right', a, b, bit_or_step x y)

pub bit_or_nothing : (x : ℕ) → bit_or x 0 ≡ x
bit_or_nothing x = bounded x x (omega arith)
  where
    bounded : (n y : ℕ) → y ≤ n → bit_or y 0 ≡ y
    bounded n zero h = bit_or-bitwise 0 0
    bounded zero (suc y) h = absurd (omega arith)
    bounded (suc n) (suc y) h =
        omega (arith, bit_or_step (suc y) 0, bounded n (suc y / 2) (omega arith))

pub index_mask : (x : ℕ) → bit_and x 0x1FF ≡ x % 512
unfolding shl_one
index_mask = bit_and_low 9

pub offset_mask : (x : ℕ) → bit_and x 0xFFF ≡ x % 4096
unfolding shl_one
offset_mask = bit_and_low 12

pub mid_mask : (x : ℕ) → bit_and x (2 ^ 21 - 1) ≡ x % 2 ^ 21
unfolding shl_one
mid_mask = bit_and_low 21

pub big_mask : (x : ℕ) → bit_and x (2 ^ 30 - 1) ≡ x % 2 ^ 30
unfolding shl_one
big_mask = bit_and_low 30

-- What a mask leaves of an entry.
pub frame_lem : (entry : ℕ) → frame entry ≡ entry / 4096 % 2 ^ 40 * 4096
unfolding frame shl_one
frame_lem entry = omega (arith, bit_and_high 12 entry (2 ^ 40 - 1), bit_and_low 40 (entry / 4096))

pub frame-bit_or :
    (phys flags : ℕ)
    → phys % 4096 ≡ 0
    → phys < 2 ^ 52
    → flags / 4096 % 2 ^ 40 ≡ 0
    → frame (bit_or phys flags) ≡ phys
unfolding shl_one
frame-bit_or phys flags h k f =
    let d : bit_or phys flags / 4096 ≡ bit_or (phys / 4096) (flags / 4096) =
      bit_or_div 12 phys flags in
    let m : bit_or (phys / 4096) (flags / 4096) % 2 ^ 40
        ≡ bit_or (phys / 4096 % 2 ^ 40) (flags / 4096 % 2 ^ 40) =
      bit_or_mod 40 (phys / 4096) (flags / 4096) in
    let z : bit_or (phys / 4096 % 2 ^ 40) (flags / 4096 % 2 ^ 40) ≡ phys / 4096 % 2 ^ 40 =
      rw f (bit_or_nothing _) in
    frame_lem (bit_or phys flags) ∙ omega (arith, ap (λ (a : ℕ). a % 2 ^ 40) d, m, z)

pub has_flag-present : (entry : ℕ) → has_flag entry present ≡ (entry % 2 == 1)
unfolding has_flag shl_one bit
has_flag-present entry =
    let e : not (bit_and entry 1 == 0) ≡ not (bit entry 0 == 0) =
      ap not (bit_and-shl_one_test entry 0) in
    e ∙ ground arith

pub has_flag-huge_page : (entry : ℕ) → has_flag entry huge_page ≡ (entry / 128 % 2 == 1)
unfolding has_flag shl_one bit
has_flag-huge_page entry =
    let e : not (bit_and entry 128 == 0) ≡ not (bit entry 7 == 0) =
      ap not (bit_and-shl_one_test entry 7) in
    let f : entry / 2 / 2 / 2 / 2 / 2 / 2 / 2 % 2 ≡ entry / 128 % 2 = omega arith in
    e ∙ ground arith
