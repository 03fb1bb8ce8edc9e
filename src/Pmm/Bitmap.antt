-- ===== src/Pmm/Bitmap.antt =====
-- src/memory/pmm.rs: the bitmap read and written bit by bit, and how many of its pages are free.
use Prim.Native.Nat.{bit_and, bit_or}
use native.Mathlib.Decide.{ℕ_discrete}
use delta_os.Base.{
  ℕ, zero, suc, ◌+◌, ◌/◌, ◌%◌, ◌<◌, ◌≡◌, ap, inl, inr, true, false, not, ◌&&◌, ◌||◌, List, arith,
  if◌then◌else◌, ltb, ◌==◌, ==_iff, ==_ne, Bool-cases, length, get_or, set, length-set,
  get_or-set_self, get_or-set_ne, lt→ltb, ltb→lt,
}
use delta_os.Base.Bits.{bit, shl_one, complement, bit_set, bit_clear}
use delta_os.Pmm.{get_bit, set_bit, clear_bit}

-- A page is inside the bitmap.
abbrev pub Covered : List ℕ → ℕ → Type 0
Covered bm i = i / 8 < length bm

get_bit-Covered :
    (bm : List ℕ) (i : ℕ) → Covered bm i → get_bit bm i ≡ (bit (get_or bm (i / 8) 0) (i % 8) == 1)
unfolding get_bit
get_bit-Covered bm i h = ground arith

get_bit-uncovered : (bm : List ℕ) (i : ℕ) → ¬ Covered bm i → get_bit bm i ≡ true
unfolding get_bit
get_bit-uncovered bm i h = ground arith

-- A byte of the bitmap is replaced, and read back.
get_bit-set :
    (bm : List ℕ) (i j v : ℕ)
    → Covered bm i
    → get_bit (set bm (i / 8) v) j ≡ (if i / 8 == j / 8 then bit v (j % 8) == 1 else get_bit bm j)
unfolding get_bit
get_bit-set bm i j v h = elim (ℕ_discrete (i / 8) (j / 8)) [
  | yes e ↦
      rw ((==_iff _ _).1 e, length-set bm (i / 8) v, ← e, get_or-set_self bm (i / 8) v 0 h)
        (ground arith)
  | no ne ↦ rw (==_ne _ _ ne, length-set bm (i / 8) v, get_or-set_ne bm (i / 8) (j / 8) v 0 ne)
]

-- `set_bit` takes the page and no other.
pub get_bit-set_bit :
    (bm : List ℕ) (i j : ℕ) → get_bit (set_bit bm i) j ≡ (get_bit bm j || (i == j))
unfolding set_bit
get_bit-set_bit bm i j = elim (Bool-cases (ltb (i / 8) (length bm))) [
  | inl h ↦ rw h (
      ground (
        arith,
        get_bit-set bm i j (bit_or (get_or bm (i / 8) 0) (shl_one (i % 8))) (ltb→lt _ _ h),
        bit_set (get_or bm (i / 8) 0) (i % 8) (j % 8),
        get_bit-Covered bm j,
      ))
  | inr h ↦ rw h (ground (arith, get_bit-uncovered bm j))
]

-- `clear_bit` frees the page and no other.
pub get_bit-clear_bit :
    (bm : List ℕ) (i j : ℕ)
    → Covered bm i
    → get_bit (clear_bit bm i) j ≡ (get_bit bm j && not (i == j))
unfolding clear_bit
get_bit-clear_bit bm i j c = rw (lt→ltb _ _ c) (
    ground (
      arith,
      get_bit-set bm i j (bit_and (get_or bm (i / 8) 0) (complement 8 (shl_one (i % 8)))) c,
      bit_clear 8 (get_or bm (i / 8) 0) (i % 8) (j % 8),
      get_bit-Covered bm j,
    ))

pub length-set_bit : (bm : List ℕ) (i : ℕ) → length (set_bit bm i) ≡ length bm
unfolding set_bit
length-set_bit bm i =
    ground (arith, length-set bm (i / 8) (bit_or (get_or bm (i / 8) 0) (shl_one (i % 8))))

pub length-clear_bit : (bm : List ℕ) (i : ℕ) → length (clear_bit bm i) ≡ length bm
unfolding clear_bit
length-clear_bit bm i =
    ground (
      arith,
      length-set bm (i / 8) (bit_and (get_or bm (i / 8) 0) (complement 8 (shl_one (i % 8)))),
    )

-- How many of the first `n` pages are free.
unfoldable pub free_below : List ℕ → ℕ → ℕ
free_below bm zero = 0
free_below bm (suc n) = (if get_bit bm n then 0 else 1) + free_below bm n

pub free_below-set_bit :
    (bm : List ℕ) (i n : ℕ)
    → get_bit bm i ≡ false
    → free_below bm n ≡ free_below (set_bit bm i) n + (if ltb i n then 1 else 0)
unfolding free_below
free_below-set_bit bm i zero h = ground arith
free_below-set_bit bm i (suc n) h =
    ground (arith, free_below-set_bit bm i n h, get_bit-set_bit bm i n, ap (get_bit bm))

pub free_below-clear_bit :
    (bm : List ℕ) (i n : ℕ)
    → Covered bm i
    → get_bit bm i ≡ true
    → free_below (clear_bit bm i) n ≡ free_below bm n + (if ltb i n then 1 else 0)
unfolding free_below
free_below-clear_bit bm i zero c h = ground arith
free_below-clear_bit bm i (suc n) c h =
    ground (arith, free_below-clear_bit bm i n c h, get_bit-clear_bit bm i n c)

pub free_below-zero : (bm : List ℕ) (n i : ℕ) → free_below bm n ≡ 0 → i < n → get_bit bm i ≡ true
unfolding free_below
free_below-zero bm zero i e h = absurd (omega arith)
free_below-zero bm (suc n) i e h = elim (ℕ_discrete i n) [
  | yes p ↦ rw p (ground arith)
  | no ne ↦ free_below-zero bm n i (omega arith) (omega arith)
]
