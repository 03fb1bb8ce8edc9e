-- ===== src/Pmm/Pages.antt =====
-- src/memory/pmm.rs: the invariant of the allocator, and single pages allocated and freed.
use mathlib.Core.Bool.{false≢true}
use native.Mathlib.Decide.{ℕ_discrete}
use delta_os.Base.{
  ℕ, zero, suc, ◌+◌, ◌*◌, ◌%◌, ◌≤◌, ◌<◌, ◌≡◌, refl, sym, ◌∙◌, ◌⊎◌, inl, inr, true, false, ◌||◌,
  Option, none, some, List, arith, ◌==◌, ==_iff, Bool-cases, if_elim, length,
}
use delta_os.Kernel.Result.{KernelResult, ok, err, out_of_memory}
use delta_os.Pmm.{
  Pmm, page_size, page_addr, get_bit, take_page, first_free, alloc_found, alloc_page,
}
use delta_os.Pmm.Bitmap.{
  Covered, get_bit-set_bit, length-set_bit, free_below, free_below-set_bit, free_below-zero,
}

-- The count is that of the free pages, the bitmap covers every page, and the range is made of
-- whole pages from an aligned base.
pub record IsPmm (m : Pmm) : Type 0 where
  pub counted : m.free_page_count ≡ free_below m.bitmap m.total_pages
  pub covers : m.total_pages ≤ 8 * length m.bitmap
  pub range : m.end_addr ≡ m.base_addr + m.total_pages * page_size
  pub aligned : m.base_addr % page_size ≡ 0

abbrev pub IsFree : Pmm → ℕ → Type 0
IsFree m i = get_bit m.bitmap i ≡ false

abbrev pub IsTaken : Pmm → ℕ → Type 0
IsTaken m i = get_bit m.bitmap i ≡ true

pub covered : {m : Pmm} → IsPmm m → (i : ℕ) → i < m.total_pages → Covered m.bitmap i
covered v i h = omega (arith, v.covers)

pub take_page-IsPmm :
    {m : Pmm} (i : ℕ) → IsPmm m → i < m.total_pages → IsFree m i → IsPmm (take_page m i)
unfolding take_page
take_page-IsPmm {m} i v h f = record {
  counted = ground (arith, v.counted, free_below-set_bit m.bitmap i m.total_pages f);
  covers = omega (arith, v.covers, length-set_bit m.bitmap i);
  range = v.range;
  aligned = v.aligned;
}

-- The loop finds the first free page of its range, and nothing only if there is none.
abbrev pub Finds : List ℕ → ℕ → ℕ → Option ℕ → Type 0
Finds bm count i o =
    ((o ≡ none) × ((j : ℕ) → i ≤ j → j < i + count → get_bit bm j ≡ true))
    ⊎ ((k : ℕ) × (o ≡ some k)
        × (i ≤ k)
        × (k < i + count)
        × (get_bit bm k ≡ false)
        × ((j : ℕ) → i ≤ j → j < k → get_bit bm j ≡ true))

pub first_free-Finds : (bm : List ℕ) (count i : ℕ) → Finds bm count i (first_free bm count i)
unfolding first_free
first_free-Finds bm zero i = inl (refl, λ j h k. absurd (omega arith))
first_free-Finds bm (suc count) i = elim (Bool-cases (get_bit bm i)) [
  | inr f ↦ inr (i, rw f, omega arith, omega arith, f, λ j h k. absurd (omega arith))
  | inl t ↦ elim (first_free-Finds bm count (suc i)) [
    | inl (e, all) ↦ inl (rw t e, λ j h k. taken t j h (λ l. all j l (omega arith)))
    | inr (k, e, l, u, f, all) ↦
        inr (k, rw t e, omega arith, omega arith, f, λ j h u. taken t j h (λ l. all j l u))
  ]
]
  where
    taken :
        get_bit bm i ≡ true
        → (j : ℕ) → i ≤ j
        → (suc i ≤ j → get_bit bm j ≡ true)
        → get_bit bm j ≡ true
    taken t j h k = elim (ℕ_discrete i j) [ yes e ↦ rw (← e) t | no ne ↦ k (omega arith) ]

-- One page has gone from free to taken, at an index below the total; nothing else has changed.
pub record Took (m m' : Pmm) (i : ℕ) : Type 0 where
  pub inside : i < m.total_pages
  pub was_free : IsFree m i
  pub pages : (j : ℕ) → get_bit m'.bitmap j ≡ (get_bit m.bitmap j || (i == j))
  pub count : m'.free_page_count + 1 ≡ m.free_page_count
  pub shape :
      (m'.base_addr ≡ m.base_addr) × (m'.end_addr ≡ m.end_addr) × (m'.total_pages ≡ m.total_pages)
  pub valid : IsPmm m'

free_below-pos : (bm : List ℕ) (i n : ℕ) → get_bit bm i ≡ false → i < n → 0 < free_below bm n
free_below-pos bm i n f h = ground (arith, free_below-set_bit bm i n f)

take_page-Took :
    {m : Pmm} (i : ℕ) → IsPmm m → i < m.total_pages → IsFree m i → Took m (take_page m i) i
unfolding take_page
take_page-Took {m} i v h f = record {
  inside = h;
  was_free = f;
  pages = λ j. get_bit-set_bit m.bitmap i j;
  count = omega (arith, v.counted, free_below-pos m.bitmap i m.total_pages f h);
  shape = (refl, refl, refl);
  valid = unfold take_page in take_page-IsPmm i v h f;
}

alloc_found-lem :
    (m : Pmm) (o : Option ℕ)
    → IsPmm m
    → Finds m.bitmap m.total_pages 0 o
    → (((j : ℕ) → j < m.total_pages → IsTaken m j) × (alloc_found m o ≡ (err out_of_memory, m)))
      ⊎ ((i : ℕ) × ((alloc_found m o).0 ≡ ok (page_addr m i))
          × Took m (alloc_found m o).1 i
          × ((j : ℕ) → j < i → IsTaken m j))
unfolding alloc_found
alloc_found-lem m o v (inl (e, all)) = rw e (inl ((λ j h. all j (omega arith) (omega arith)), refl))
alloc_found-lem m o v (inr (k, e, l, u, f, all)) =
    rw e (inr (k, refl, take_page-Took k v (omega arith) f, λ j h. all j (omega arith) h))

-- On an allocator with the invariant, `alloc_page` takes the free page of the lowest index, returns
-- its address and keeps the invariant; or, exactly when no page is free, it reports that memory is
-- used up and changes nothing.
pub alloc_page_lem :
    (m : Pmm)
    → IsPmm m
    → (((j : ℕ) → j < m.total_pages → IsTaken m j) × (alloc_page m ≡ (err out_of_memory, m)))
      ⊎ ((i : ℕ) × ((alloc_page m).0 ≡ ok (page_addr m i))
          × Took m (alloc_page m).1 i
          × ((j : ℕ) → j < i → IsTaken m j))
unfolding alloc_page
alloc_page_lem m v = elim (Bool-cases (m.free_page_count == 0)) [
  | inl e ↦ inl (
    (λ j h.
        free_below-zero m.bitmap m.total_pages j (omega (arith, v.counted, (==_iff _ _).0 e)) h),
    if_elim (λ (p : KernelResult ℕ × Pmm). p ≡ (err out_of_memory, m)) (m.free_page_count == 0)
        (λ _. refl) (λ h. absurd (false≢true (sym h ∙ e))),
  )
  | inr e ↦
      let q : alloc_page m ≡ alloc_found m (first_free m.bitmap m.total_pages 0) =
        if_elim
          (λ (p : KernelResult ℕ × Pmm). p ≡ alloc_found m (first_free m.bitmap m.total_pages 0))
          (m.free_page_count == 0) (λ h. absurd (false≢true (sym e ∙ h))) (λ _. refl) in
      rw q (alloc_found-lem m _ v (first_free-Finds m.bitmap m.total_pages 0))
]
