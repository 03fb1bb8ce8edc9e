-- ===== src/Heap/Slabs.antt =====
-- src/memory/heap.rs: a class that has been given all the blocks it may have.
use delta_os.Base.{
  ℕ, zero, suc, ◌+◌, ◌-◌, ◌*◌, ◌/◌, ◌≤◌, ◌<◌, ◌≡◌, ◌≢◌, refl, sym, ap, ◌∙◌, subst, ◌⊎◌, inl, inr,
  List, [], ◌∷◌, arith, ltb, ltb→lt, if_elim, min, length, length-set, get_or-set_self,
  get_or-set_ne, All,
}
use delta_os.Heap.{
  SlabAllocator, SlabClass, new_class, slab_at, put_slab, pop_block, refill, alloc_from_slab,
}

pop_block-none :
    (a : SlabAllocator) (idx : ℕ) (c : SlabClass)
    → c.free_count ≡ 0
    → pop_block a idx c ≡ (0, put_slab a idx c)
unfolding pop_block
pop_block-none a idx c e =
    if_elim (λ (p : ℕ × SlabAllocator). p ≡ (0, put_slab a idx c)) (ltb 0 c.free_count)
      (λ h. absurd (omega (arith, ltb→lt _ _ h, e))) (λ h. refl)

-- The class has been given its 1024 blocks, and none of them is free.
abbrev pub IsSpent : SlabClass → Type 0
IsSpent c = (c.free_count ≡ 0) × (c.total_count ≡ 1024)

refill-IsSpent : (a : SlabAllocator) (c : SlabClass) → IsSpent c → IsSpent (refill a c)
unfolding refill
refill-IsSpent a c (e, t) = nothing_added (4096 / c.block_size) c.free_count c.total_count e t
  where
    nothing_added :
        (per_page free total : ℕ)
        → free ≡ 0
        → total ≡ 1024
        → (free + min per_page (1024 - total) ≡ 0) × (total + min per_page (1024 - total) ≡ 1024)
    nothing_added per_page free total e t = (omega arith, omega arith)

-- A failed attempt on the class `idx`, which took a page or found none left.
record Failed (a : SlabAllocator) (idx : ℕ) (r : ℕ × SlabAllocator) : Type 0 where
  null : r.0 ≡ 0
  spent : IsSpent (slab_at r.1 idx)
  others : (j : ℕ) → idx ≢ j → slab_at r.1 j ≡ slab_at a j
  classes : length r.1.slabs ≡ length a.slabs
  size : r.1.heap_size ≡ a.heap_size
  bump :
      ((a.bump_offset + 4096 ≤ a.heap_size) × (r.1.bump_offset ≡ a.bump_offset + 4096))
      ⊎ ((a.heap_size < a.bump_offset + 4096) × (r.1.bump_offset ≡ a.bump_offset))

alloc_from_slab-Failed :
    (a : SlabAllocator) (idx : ℕ)
    → idx < length a.slabs
    → IsSpent (slab_at a idx)
    → Failed a idx (alloc_from_slab a idx)
unfolding alloc_from_slab
alloc_from_slab-Failed a idx l (e, t) =
    let grown : SlabAllocator = record a { bump_offset = a.bump_offset + 4096 } in
    let c : SlabClass = refill a (slab_at a idx) in
    let spent : IsSpent c = refill-IsSpent a (slab_at a idx) (e, t) in
    if_elim (Failed a idx) (ltb 0 (slab_at a idx).free_count)
      (λ h. absurd (omega (arith, ltb→lt _ _ h, e)))
      (λ _.
        if_elim (Failed a idx) (ltb a.heap_size (a.bump_offset + 4096))
          (λ h. record {
            null = refl;
            spent = (e, t);
            others = λ j ne. refl;
            classes = refl;
            size = refl;
            bump = inr (ltb→lt _ _ h, refl);
          })
          (λ h. subst (Failed a idx) (sym (pop_block-none grown idx c spent.0)) (record {
            null = refl;
            spent = subst IsSpent (sym (get_or-set_self a.slabs idx c (new_class 0) l)) spent;
            others = λ j ne. get_or-set_ne a.slabs idx j c (new_class 0) ne;
            classes = length-set a.slabs idx c;
            size = refl;
            bump = inl (ground (arith, h), refl);
          })))

-- What `n` allocations from the class return, and the heap behind them.
unfoldable pub attempts : ℕ → SlabAllocator → ℕ → List ℕ × SlabAllocator
attempts zero a idx = ([], a)
attempts (suc n) a idx =
    let (ptr, a') = alloc_from_slab a idx in
    let (ptrs, a'') = attempts n a' idx in (ptr ∷ ptrs, a'')

-- A class that has been given its 1024 blocks, none of them free, serves no allocation of any number of
-- them in a row: all return null, and leave the class like that and the others as they were. But each
-- uses up a page of the bump area until less than a page is left.
pub alloc_from_slab_capped :
    (n : ℕ) (a : SlabAllocator) (idx : ℕ)
    → idx < length a.slabs
    → IsSpent (slab_at a idx)
    → let (ptrs, a') = attempts n a idx in
      All (λ ptr. ptr ≡ 0) ptrs
      × (length ptrs ≡ n)
      × IsSpent (slab_at a' idx)
      × ((j : ℕ) → idx ≢ j → slab_at a' j ≡ slab_at a j)
      × (a'.bump_offset ≡ a.bump_offset + 4096 * min n ((a.heap_size - a.bump_offset) / 4096))
unfolding attempts
alloc_from_slab_capped zero a idx l c = (tt, refl, c, (λ j ne. refl), omega arith)
alloc_from_slab_capped (suc n) a idx l c =
    let f = alloc_from_slab-Failed a idx l c in
    let a' : SlabAllocator = (alloc_from_slab a idx).1 in
    let (nulls, many, spent, others, bump) =
      alloc_from_slab_capped n a' idx (rw f.classes l) f.spent in
    let size : a'.heap_size ≡ a.heap_size = f.size in
    let next : a'.bump_offset + 4096 * min n ((a'.heap_size - a'.bump_offset) / 4096)
        ≡ a.bump_offset + 4096 * min (suc n) ((a.heap_size - a.bump_offset) / 4096) =
      elim f.bump [
        | inl (h, e) ↦ omega (arith, h, e, size)
        | inr (h, e) ↦ omega (arith, h, e, size)
      ] in
    ((f.null, nulls), ap suc many, spent, (λ j ne. others j ne ∙ f.others j ne), bump ∙ next)
