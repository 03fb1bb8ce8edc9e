-- ===== src/Ntfs/RunLists.antt =====
-- src/fs/ntfs.rs: `parse_run_list` reads back what a reference encoder writes.
use Prim.Native.Nat.{bit_or, bit_or-bitwise}
use native.Mathlib.Nat.{
  mod-add-div, mul_comm, mul_assoc, mul-add, mul-le-mul_left, mul-le-mul_right, mod-eq_of_lt,
  mul-mod_right, mul-div_right, div-eq_of_lt,
}
use delta_os.Base.{
  ℕ, zero, suc, ◌+◌, ◌-◌, ◌*◌, ◌/◌, ◌%◌, ◌^◌, ◌≤◌, ◌<◌, ◌≡◌, refl, ap, ◌∙◌, List, [], ◌∷◌, ◌++◌,
  if◌then◌else◌, leb, length, drop, Bool-cases, inl, inr, arith,
}
use delta_os.Base.Bits.{shl_one, shl_one-pos}
use delta_os.Vmm.Masks.{bit_or_div, bit_or_mod, bit_or_nothing}
use delta_os.Ntfs.{DataRun}
use delta_os.Ntfs.Bytes.{byte}
use delta_os.Ntfs.Runs.{or_bytes, sign_extend}

mul_div : (s b : ℕ) → 0 < s → s * b / s ≡ b
mul_div s b h = mul-div_right b h

mul_mod : (s b : ℕ) → s * b % s ≡ 0
mul_mod s b = mul-mod_right s b

-- Bits above those of the other word are added.
bit_or_disjoint : (k a b : ℕ) → a < shl_one k → bit_or a (shl_one k * b) ≡ a + shl_one k * b
bit_or_disjoint k a b h =
    let s : ℕ = shl_one k in
    let x : ℕ = bit_or a (s * b) in
    let low : x % s ≡ a =
      bit_or_mod k a (s * b)
      ∙ (ap (λ (z : ℕ). bit_or z (s * b % s)) (mod-eq_of_lt h)
          ∙ (ap (bit_or a) (mul_mod s b) ∙ bit_or_nothing a)) in
    let high : x / s ≡ b =
      bit_or_div k a (s * b)
      ∙ (ap (λ (z : ℕ). bit_or z (s * b / s)) (div-eq_of_lt h)
          ∙ (bit_or-bitwise 0 (s * b / s) ∙ mul_div s b (shl_one-pos k))) in
    omega (arith, mod-add-div x s, low, ap (λ (z : ℕ). s * z) high)

-- `count` bytes of a number, the lowest first.
unfoldable pub to_le : ℕ → ℕ → List ℕ
to_le zero n = []
to_le (suc count) n = n % 256 ∷ to_le count (n / 256)

-- The place of byte `i`, and its value in a word.
place : (i : ℕ) → i < 8 → i * 8 % 64 ≡ i * 8
place i h = omega arith

shl_next : (i : ℕ) → shl_one (suc i * 8) ≡ 256 * shl_one (i * 8)
unfolding shl_one
shl_next i =
    let e : suc i * 8 ≡ suc (suc (suc (suc (suc (suc (suc (suc (i * 8)))))))) = omega arith in
    rw e (omega arith)

-- A byte's term of the loop.
or_byte :
    (i b word : ℕ)
    → i < 8
    → b < 256
    → shl_one (suc i * 8) ≤ 2 ^ 64
    → word < shl_one (i * 8)
    → bit_or word (b * shl_one (i * 8 % 64) % 2 ^ 64) ≡ word + shl_one (i * 8) * b
or_byte i b word h l top w =
    let s : ℕ = shl_one (i * 8) in
    let small : b * s < 2 ^ 64 = omega (
      arith,
      mul-le-mul_right {m = b} {n = 255} s (omega arith),
      shl_next i,
      shl_one-pos (i * 8),
    ) in
    ap (λ (z : ℕ). bit_or word (b * shl_one z % 2 ^ 64)) (place i h)
    ∙ (ap (bit_or word) (mod-eq_of_lt small ∙ mul_comm b s) ∙ bit_or_disjoint (i * 8) word b w)

shl_top : (i : ℕ) → i < 8 → shl_one (suc i * 8) ≤ 2 ^ 64
unfolding shl_one
shl_top zero h = omega arith
shl_top (suc zero) h = omega arith
shl_top (suc (suc zero)) h = omega arith
shl_top (suc (suc (suc zero))) h = omega arith
shl_top (suc (suc (suc (suc zero)))) h = omega arith
shl_top (suc (suc (suc (suc (suc zero))))) h = omega arith
shl_top (suc (suc (suc (suc (suc (suc zero)))))) h = omega arith
shl_top (suc (suc (suc (suc (suc (suc (suc zero))))))) h = omega arith
shl_top (suc (suc (suc (suc (suc (suc (suc (suc i)))))))) h = absurd (omega arith)

digits_sum : (s n word t : ℕ) → t ≡ 256 * s → word + s * (n % 256) + t * (n / 256) ≡ word + s * n
digits_sum s n word t e =
    let a : s * n ≡ s * (n % 256 + 256 * (n / 256)) = ap (λ (z : ℕ). s * z) (omega arith) in
    let b : s * (n % 256 + 256 * (n / 256)) ≡ s * (n % 256) + s * (256 * (n / 256)) =
      mul-add s (n % 256) (256 * (n / 256)) in
    let c : 256 * s * (n / 256) ≡ s * (256 * (n / 256)) =
      ap (λ (z : ℕ). z * (n / 256)) (mul_comm 256 s) ∙ mul_assoc s 256 (n / 256) in
    rw e (omega (arith, a, b, c))

pub first_place : (shl_one (0 * 8) ≡ 1) × (0 < shl_one (0 * 8))
unfolding shl_one
first_place = (refl, omega arith)

pub no_bytes : (n : ℕ) → n < shl_one (0 * 8) → n ≡ 0
unfolding shl_one
no_bytes n l = omega arith

pub or_bytes-to_le :
    (count i n word : ℕ) (rest : List ℕ)
    → i + count ≤ 8
    → n < shl_one (count * 8)
    → word < shl_one (i * 8)
    → or_bytes count i (to_le count n ++ rest) word ≡ word + shl_one (i * 8) * n
unfolding or_bytes to_le
or_bytes-to_le zero i n word rest h l w = rw (no_bytes n l) (omega arith)
or_bytes-to_le (suc count) i n word rest h l w =
    let s : ℕ = shl_one (i * 8) in
    let b : ℕ = n % 256 in
    let now = or_byte i b word (omega arith) (omega arith) (shl_top i (omega arith)) w in
    let grown : word + s * b < shl_one (suc i * 8) =
      omega (arith, mul-le-mul_left {m = b} {n = 255} s (omega arith), shl_next i) in
    let left : n / 256 < shl_one (count * 8) = omega (arith, shl_next count) in
    let later =
      or_bytes-to_le count (suc i) (n / 256) (word + s * b) rest (omega arith) left grown in
    ap (or_bytes count (suc i) (to_le count (n / 256) ++ rest)) now
    ∙ (later ∙ digits_sum s n word (shl_one (suc i * 8)) (shl_next i))

-- A run as the volume has it: the lengths of its two numbers, the count of clusters, and the offset
-- below 256 ^ offset_len that the offset's bytes spell.
pub record RunCode : Type 0 where
  pub size_len : ℕ
  pub offset_len : ℕ
  pub clusters : ℕ
  pub spelled : ℕ

-- The offset that is meant, as an i64: negative where the highest bit spelled is set.
unfoldable pub meant : ℕ → ℕ → ℕ
meant offset_len spelled =
    if leb (shl_one (offset_len * 8)) (2 * spelled)
    then spelled + (2 ^ 64 - shl_one (offset_len * 8))
    else spelled

abbrev pub run_of : RunCode → DataRun
run_of c = record { run_length = c.clusters; offset = meant c.offset_len c.spelled }

unfoldable pub encode_run : RunCode → List ℕ
encode_run c =
    (c.size_len + 16 * c.offset_len) ∷ (to_le c.size_len c.clusters ++ to_le c.offset_len c.spelled)

-- The runs, and the byte 0 that ends them.
unfoldable pub encode : List RunCode → List ℕ
encode [] = 0 ∷ []
encode (c ∷ codes) = encode_run c ++ encode codes

-- Between 1 and 8 bytes for the count and at most 7 for the offset, which is 0 where it has no bytes.
unfoldable pub IsRun : RunCode → Type 0
IsRun c =
    (0 < c.size_len)
    × (c.size_len ≤ 8)
    × (c.offset_len ≤ 7)
    × (c.clusters < shl_one (c.size_len * 8))
    × (c.spelled < shl_one (c.offset_len * 8))

pub length-to_le :
    (count n : ℕ) (rest : List ℕ) → length (to_le count n ++ rest) ≡ count + length rest
unfolding to_le
length-to_le zero n rest = omega arith
length-to_le (suc count) n rest = omega (arith, length-to_le count (n / 256) rest)

pub drop-to_le : (count n : ℕ) (rest : List ℕ) → drop count (to_le count n ++ rest) ≡ rest
unfolding to_le
drop-to_le zero n rest = refl
drop-to_le (suc count) n rest = drop-to_le count (n / 256) rest

-- The highest byte says whether the highest bit is set.
one_byte : (n : ℕ) → shl_one (1 * 8) ≡ 256
unfolding shl_one
one_byte n = refl

top_byte :
    (count n : ℕ) (rest : List ℕ)
    → n < shl_one (suc count * 8)
    → leb 128 (byte (to_le (suc count) n ++ rest) count) ≡ leb (shl_one (suc count * 8)) (2 * n)
unfolding to_le
top_byte zero n rest h = ground (arith, one_byte n, h)
top_byte (suc count) n rest h =
    let upper = top_byte count (n / 256) rest (omega (arith, h, shl_next (suc count))) in
    upper ∙ ground (arith, shl_next count, shl_next (suc count))

mask_top :
    (len : ℕ)
    → 0 < len
    → len ≤ 7
    → (2 ^ 64 - 1) * shl_one (len * 8 % 64) % 2 ^ 64
      ≡ shl_one (len * 8) * ((2 ^ 64 - shl_one (len * 8)) / shl_one (len * 8))
unfolding shl_one
mask_top zero h k = absurd (omega arith)
mask_top (suc zero) h k = refl
mask_top (suc (suc zero)) h k = refl
mask_top (suc (suc (suc zero))) h k = refl
mask_top (suc (suc (suc (suc zero)))) h k = refl
mask_top (suc (suc (suc (suc (suc zero))))) h k = refl
mask_top (suc (suc (suc (suc (suc (suc zero)))))) h k = refl
mask_top (suc (suc (suc (suc (suc (suc (suc zero))))))) h k = refl
mask_top (suc (suc (suc (suc (suc (suc (suc (suc l)))))))) h k = absurd (omega arith)

mask_value :
    (len : ℕ)
    → 0 < len
    → len ≤ 7
    → shl_one (len * 8) * ((2 ^ 64 - shl_one (len * 8)) / shl_one (len * 8))
      ≡ 2 ^ 64 - shl_one (len * 8)
unfolding shl_one
mask_value zero h k = absurd (omega arith)
mask_value (suc zero) h k = refl
mask_value (suc (suc zero)) h k = refl
mask_value (suc (suc (suc zero))) h k = refl
mask_value (suc (suc (suc (suc zero)))) h k = refl
mask_value (suc (suc (suc (suc (suc zero))))) h k = refl
mask_value (suc (suc (suc (suc (suc (suc zero)))))) h k = refl
mask_value (suc (suc (suc (suc (suc (suc (suc zero))))))) h k = refl
mask_value (suc (suc (suc (suc (suc (suc (suc (suc l)))))))) h k = absurd (omega arith)

pub sign_extend-meant :
    (len n : ℕ) (rest : List ℕ)
    → 0 < len
    → len ≤ 7
    → n < shl_one (len * 8)
    → sign_extend len (to_le len n ++ rest) n ≡ meant len n
unfolding sign_extend meant
sign_extend-meant zero n rest h k l = absurd (omega arith)
sign_extend-meant (suc c) n rest h k l =
    let t = top_byte c n rest l in
    let s : ℕ = shl_one (suc c * 8) in
    let at : suc c - 1 ≡ c = omega arith in
    let ored : bit_or n ((2 ^ 64 - 1) * shl_one (suc c * 8 % 64) % 2 ^ 64) ≡ n + (2 ^ 64 - s) =
      ap (bit_or n) (mask_top (suc c) h k)
      ∙ (bit_or_disjoint (suc c * 8) n ((2 ^ 64 - s) / s) l
          ∙ ap (λ (z : ℕ). n + z) (mask_value (suc c) h k)) in
    elim (Bool-cases (leb s (2 * n))) [ inl p ↦ rw (at, t, p) ored | inr p ↦ rw (at, t, p) refl ]
