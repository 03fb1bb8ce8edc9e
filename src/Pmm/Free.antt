-- ===== src/Pmm/Free.antt =====
-- src/memory/pmm.rs: `free_page` on every branch, and what allocating and freeing undo.
use mathlib.Core.Bool.{false≢true}
use native.Mathlib.Decide.{ℕ_discrete}
use delta_os.Base.{
  ℕ, ◌+◌, ◌-◌, ◌/◌, ◌%◌, ◌≤◌, ◌<◌, ◌≡◌, ◌≢◌, refl, ap, sym, ◌∙◌, ◌⊎◌, inl, inr, Bool, true, false,
  not, ◌&&◌, ◌||◌, arith, ltb, leb, ◌==◌, ==_ne, ==_refl, Bool-cases, if_elim,
}
use delta_os.Kernel.Result.{
  KernelResult, ok, err, invalid_address, invalid_argument, page_not_mapped,
}
use delta_os.Pmm.{Pmm, page_size, page_addr, get_bit, alloc_page, free_index, free_page}
use delta_os.Pmm.Bitmap.{get_bit-clear_bit, length-clear_bit, free_below-clear_bit}
use delta_os.Pmm.Pages.{IsPmm, IsFree, IsTaken, Took, covered, alloc_page_lem}

-- One page has gone from taken to free; nothing else has changed.
pub record Freed (m m' : Pmm) (i : ℕ) : Type 0 where
  pub inside : i < m.total_pages
  pub was_taken : IsTaken m i
  pub pages : (j : ℕ) → get_bit m'.bitmap j ≡ (get_bit m.bitmap j && not (i == j))
  pub count : m'.free_page_count ≡ m.free_page_count + 1
  pub valid : IsPmm m'

-- The address lies in the managed range.
abbrev pub InRange : Pmm → ℕ → Type 0
InRange m addr = (m.base_addr ≤ addr) × (addr < m.end_addr)

abbrev pub index_of : Pmm → ℕ → ℕ
index_of m addr = (addr - m.base_addr) / page_size

pub index_of-lt : {m : Pmm} (addr : ℕ) → IsPmm m → InRange m addr → index_of m addr < m.total_pages
index_of-lt addr v h = omega (arith, v.range, h.0, h.1)

pub page_addr-index_of :
    {m : Pmm} (addr : ℕ)
    → IsPmm m
    → InRange m addr
    → addr % page_size ≡ 0
    → page_addr m (index_of m addr) ≡ addr
page_addr-index_of addr v h e = omega (arith, v.aligned, h.0)

free_index-Freed :
    (m : Pmm) (i : ℕ)
    → IsPmm m
    → i < m.total_pages
    → IsTaken m i
    → ((free_index m i).0 ≡ ok tt) × Freed m (free_index m i).1 i
unfolding free_index
free_index-Freed m i v h t =
    let c = covered v i h in
    rw t (
      refl,
      record {
        inside = h;
        was_taken = t;
        pages = λ j. get_bit-clear_bit m.bitmap i j c;
        count = refl;
        valid = record {
          counted = ground (arith, v.counted, free_below-clear_bit m.bitmap i m.total_pages c t);
          covers = omega (arith, v.covers, length-clear_bit m.bitmap i);
          range = v.range;
          aligned = v.aligned;
        };
      },
    )

free_index-IsFree : (m : Pmm) (i : ℕ) → IsFree m i → free_index m i ≡ (err page_not_mapped, m)
unfolding free_index
free_index-IsFree m i f =
    if_elim (λ (p : KernelResult (Unit {0}) × Pmm). p ≡ (err page_not_mapped, m))
      (not (get_bit m.bitmap i)) (λ _. refl) (λ h. absurd (false≢true (sym h ∙ ap not f)))

free_page-inside :
    (m : Pmm) (addr : ℕ)
    → InRange m addr
    → addr % page_size ≡ 0
    → free_page m addr ≡ free_index m (index_of m addr)
unfolding free_page
free_page-inside m addr h e = ground (arith, h.0, h.1)

-- On an allocator with the invariant, `free_page` refuses an address outside the range, one that is
-- no multiple of the page size, and a page that is free, and then changes nothing; any other page
-- it frees, and no other, and keeps the invariant.
pub free_page_lem :
    (m : Pmm) (addr : ℕ)
    → IsPmm m
    → ((¬ InRange m addr) × (free_page m addr ≡ (err invalid_address, m)))
      ⊎ (InRange m addr × (addr % page_size ≢ 0) × (free_page m addr ≡ (err invalid_argument, m)))
      ⊎ ((page_addr m (index_of m addr) ≡ addr)
          × IsFree m (index_of m addr)
          × (free_page m addr ≡ (err page_not_mapped, m)))
      ⊎ ((page_addr m (index_of m addr) ≡ addr)
          × ((free_page m addr).0 ≡ ok tt)
          × Freed m (free_page m addr).1 (index_of m addr))
free_page_lem m addr v = elim (Bool-cases (ltb addr m.base_addr || leb m.end_addr addr)) [
  | inl out ↦ inl (ground arith, unfold free_page in ground arith)
  | inr within ↦
      let h : InRange m addr = ground arith in
      inr (elim (ℕ_discrete (addr % page_size) 0) [
        | no odd ↦ inl (h, odd, unfold free_page in ground (arith, h.0, h.1))
        | yes even ↦
            let at = page_addr-index_of addr v h even in
            let e = free_page-inside m addr h even in
            inr (elim (Bool-cases (get_bit m.bitmap (index_of m addr))) [
              | inr f ↦ inl (at, f, e ∙ free_index-IsFree m _ f)
              | inl t ↦
                  let (r, w) = free_index-Freed m (index_of m addr) v (index_of-lt addr v h) t in
                  inr (at, rw e r, rw e w)
            ])
      ])
]

-- A page taken and then freed leaves the bitmap's readings and the count as they were.
freed-Took :
    (m m' : Pmm) (i : ℕ) (addr : ℕ)
    → IsPmm m
    → page_addr m i ≡ addr
    → Took m m' i
    → let (result, m'') = free_page m' addr in
      (result ≡ ok tt)
      × ((j : ℕ) → get_bit m''.bitmap j ≡ get_bit m.bitmap j)
      × (m''.free_page_count ≡ m.free_page_count)
      × IsPmm m''
freed-Took m m' i addr v at t =
    let (b, e, n) = t.shape in
    let r : InRange m' addr = (omega (arith, at, b), omega (arith, at, b, e, v.range, t.inside)) in
    let even : addr % page_size ≡ 0 = omega (arith, at, v.aligned) in
    let here : index_of m' addr ≡ i = omega (arith, at, b) in
    let there : free_page m' addr ≡ free_index m' i =
      free_page-inside m' addr r even ∙ ap (free_index m') here in
    let taken : IsTaken m' i = rw (t.pages i) (marked (get_bit m.bitmap i)) in
    let (ok', f) = free_index-Freed m' i t.valid (omega (arith, t.inside, n)) taken in
    rw there
      (ok', λ j. f.pages j ∙ rw (t.pages j) (back j), omega (arith, f.count, t.count), f.valid)
  where
    plain : (b : Bool) → ((b || false) && true) ≡ b
    plain b = ground arith

    marked : (b : Bool) → (b || (i == i)) ≡ true
    marked b = ground arith

    back : (j : ℕ) → ((get_bit m.bitmap j || i == j) && not (i == j)) ≡ get_bit m.bitmap j
    back j = elim (ℕ_discrete i j) [
      | yes e ↦
          ap (λ k. (get_bit m.bitmap k || (i == k)) && not (i == k)) (sym e)
          ∙ here
          ∙ ap (get_bit m.bitmap) e
      | no ne ↦ rw (==_ne i j ne) (plain (get_bit m.bitmap j))
    ]
      where
        here : ((get_bit m.bitmap i || (i == i)) && not (i == i)) ≡ get_bit m.bitmap i
        here = rw (==_refl i, t.was_free) refl

-- On an allocator with the invariant, a page that `alloc_page` has returned can be freed, and the
-- allocator then has the invariant, and the same free pages and the same count as before.
pub free_page-alloc_page :
    (m : Pmm) (addr : ℕ)
    → IsPmm m
    → (alloc_page m).0 ≡ ok addr
    → let (result, m') = free_page (alloc_page m).1 addr in
      (result ≡ ok tt)
      × ((j : ℕ) → get_bit m'.bitmap j ≡ get_bit m.bitmap j)
      × (m'.free_page_count ≡ m.free_page_count)
      × IsPmm m'
free_page-alloc_page m addr v e = elim (alloc_page_lem m v) [
  | inl (_, q) ↦ absurd (cc (ap (λ (p : KernelResult ℕ × Pmm). p.0) q))
  | inr (i, q, t, _) ↦ freed-Took m _ i addr v (ok-injective (sym q ∙ e)) t
]
  where
    ok-injective : {a b : ℕ} → ok a ≡ ok b → a ≡ b
    ok-injective h = cc
