-- ===== src/Task/Stack.antt =====
-- src/sched/task.rs: the region that task stacks come from.
use Prim.Native.String.{String}
use delta_os.Base.{
  ℕ, ◌+◌, ◌-◌, ◌≤◌, ◌<◌, ◌≡◌, ◌≢◌, refl, ◌⊎◌, inl, inr, arith, ltb, false, Bool-cases, ltb→lt,
  lt→ltb,
}
use delta_os.Base.Word.{u64_mod, add64}
use delta_os.Task.{
  Machine, task_stack_size, stack_region_start, stack_region_end, alloc_stack, zero_fill,
  new_kernel,
}

-- The next stack lies in the region.
pub record InRegion (m : Machine) : Type 0 where
  pub from : stack_region_start ≤ m.next_stack
  pub to : m.next_stack ≤ stack_region_end

-- A block that an allocation has taken: at or above every stack given out before, inside the
-- region, cleared, with the rest of memory as it was.
pub record Taken (m m' : Machine) (top size : ℕ) : Type 0 where
  pub above : m.next_stack + size ≡ top
  pub next : m'.next_stack ≡ top
  pub inside : top ≤ stack_region_end
  pub ids : m'.next_task_id ≡ m.next_task_id
  pub cleared : (a : ℕ) → m.next_stack ≤ a → a < top → m'.memory a ≡ 0
  pub below : (a : ℕ) → a < m.next_stack → m'.memory a ≡ m.memory a
  pub beyond : (a : ℕ) → top ≤ a → m'.memory a ≡ m.memory a

-- From a next stack in the region, `alloc_stack` of a size of 64 bits does one of three things. Where the
-- region has room it takes the next block; where it has not, and the sum fits a word, it returns 0 and
-- changes nothing; where the sum wraps, the test passes, and the next stack moves down to the wrapped
-- sum, which is returned.
pub alloc_stack-Taken :
    (m : Machine) (size : ℕ)
    → m.next_stack ≤ stack_region_end
    → size < u64_mod
    → let (top, m') = alloc_stack m size in
      ((m.next_stack + size ≤ stack_region_end) × Taken m m' top size)
      ⊎ ((stack_region_end < m.next_stack + size)
          × (m.next_stack + size < u64_mod)
          × (top ≡ 0)
          × (m' ≡ m))
      ⊎ ((u64_mod ≤ m.next_stack + size)
          × (top ≡ m.next_stack + size - u64_mod)
          × (top < m.next_stack)
          × (m'.next_stack ≡ top))
unfolding alloc_stack zero_fill
alloc_stack-Taken m size h w = elim (Bool-cases (ltb (m.next_stack + size) u64_mod)) [
  | inl fits ↦
      let sum : add64 m.next_stack size ≡ m.next_stack + size = ground (arith, fits) in
      rw sum (elim (Bool-cases (ltb stack_region_end (m.next_stack + size))) [
        | inl full ↦ rw full (inr (inl (ltb→lt _ _ full, ltb→lt _ _ fits, refl, refl)))
        | inr room ↦ rw room (
            inl (
              ground arith,
              record {
                above = refl;
                next = refl;
                inside = ground arith;
                ids = refl;
                cleared = λ a h k. ground arith;
                below = λ a h. ground arith;
                beyond = λ a h. ground arith;
              },
            ))
      ])
  | inr wraps ↦
      let over : u64_mod ≤ m.next_stack + size = ground (arith, wraps) in
      let passes : ltb stack_region_end (add64 m.next_stack size) ≡ false = ground (arith, over) in
      rw passes (inr (inr (over, omega arith, omega arith, refl)))
]

-- Two stacks that are allocated one after the other, and both given out, do not overlap, where the
-- region does not start at address 0 and the sizes are no larger than the region's end.
pub alloc_stack_disjoint :
    (m : Machine) (size size' : ℕ)
    → m.next_stack ≤ stack_region_end
    → size ≤ stack_region_end
    → size' ≤ stack_region_end
    → let (top, m') = alloc_stack m size in
      let (top', m'') = alloc_stack m' size' in
      0 < m.next_stack → top ≢ 0 → top' ≢ 0 → top ≤ top' - size'
unfolding alloc_stack
alloc_stack_disjoint m size size' h k k' = ground arith

-- Once less than a stack is left of the region, a new kernel task has its stack at address 0.
pub new_kernel_exhausted :
    (m : Machine) (entry : ℕ) (name : String)
    → m.next_stack ≤ stack_region_end
    → stack_region_end < m.next_stack + task_stack_size
    → (new_kernel m entry name).0.stack_top ≡ 0
unfolding new_kernel
new_kernel_exhausted m entry name k h =
    let full : stack_region_end < add64 m.next_stack task_stack_size = omega arith in
    rw (lt→ltb _ _ full)
