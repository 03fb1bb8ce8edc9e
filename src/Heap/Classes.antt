-- ===== src/Heap/Classes.antt =====
-- src/memory/heap.rs: which slab class serves a size.
use delta_os.Base.{
  ℕ, zero, suc, ◌+◌, ◌<◌, ◌≤◌, ◌≡◌, refl, ◌⊎◌, inl, inr, Option, none, some, arith, leb, ltb, ◌==◌,
  ◌||◌, Bool-cases, leb→le,
}
use native.Mathlib.Decide.{ℕ_discrete}
use delta_os.Base.Bits.{shl_one}
use delta_os.Heap.{class_size, find_class, find_slab_class, slab_max_size}

-- The first class from `i` on, of `n`, whose blocks are large enough, if there is one.
abbrev FindsClass : ℕ → ℕ → ℕ → Option ℕ → Type 0
FindsClass size n i o =
    ((o ≡ none) × ((j : ℕ) → i ≤ j → j < i + n → class_size j < size))
    ⊎ ((k : ℕ) × (o ≡ some k)
        × (k < i + n)
        × (size ≤ class_size k)
        × ((j : ℕ) → i ≤ j → j < k → class_size j < size))

find_class-FindsClass : (size n i : ℕ) → FindsClass size n i (find_class size n i)
unfolding find_class
find_class-FindsClass size zero i = inl (refl, λ j h k. absurd (omega arith))
find_class-FindsClass size (suc n) i = elim (Bool-cases (leb size (class_size i))) [
  | inl e ↦ inr (i, rw e refl, omega arith, leb→le _ _ e, λ j h k. absurd (omega arith))
  | inr e ↦
      let here : class_size i < size = ground (arith, e) in
      elim (find_class-FindsClass size n (suc i)) [
        | inl (q, all) ↦ inl (rw e q, λ j h k. smaller here j h (λ l. all j l (omega arith)))
        | inr (k, q, u, fits, all) ↦
            inr (k, rw e q, omega arith, fits, λ j h l. smaller here j h (λ m. all j m l))
      ]
]
  where
    smaller :
        class_size i < size
        → (j : ℕ) → i ≤ j
        → (suc i ≤ j → class_size j < size)
        → class_size j < size
    smaller here j h k = elim (ℕ_discrete i j) [ yes e ↦ rw (← e) here | no ne ↦ k (omega arith) ]

class_size-largest : class_size 9 ≡ slab_max_size
unfolding class_size shl_one
class_size-largest = refl

-- A size from 1 to 4096 is served by the class of the smallest blocks that hold it, of the ten; any
-- other size is served by none.
pub find_slab_class_lem :
    (size : ℕ)
    → (((size ≡ 0) ⊎ (4096 < size)) × (find_slab_class size ≡ none))
      ⊎ ((i : ℕ) × (find_slab_class size ≡ some i)
          × (i < 10)
          × (size ≤ class_size i)
          × ((j : ℕ) → j < i → class_size j < size))
unfolding find_slab_class
find_slab_class_lem size = elim (Bool-cases (ltb slab_max_size size || (size == 0))) [
  | inl e ↦ inl (ground (arith, e), rw e refl)
  | inr e ↦ elim (find_class-FindsClass size 10 0) [
    | inl (q, all) ↦
        absurd (ground (arith, e, class_size-largest, all 9 (omega arith) (omega arith)))
    | inr (i, q, u, fits, all) ↦ inr (i, rw e q, omega arith, fits, λ j h. all j (omega arith) h)
  ]
]
