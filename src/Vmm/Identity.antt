-- ===== src/Vmm/Identity.antt =====
-- src/memory/vmm.rs: `identity_map` ends, and maps the pages of the range to themselves.
use Prim.Native.Nat.{bit_and}
use delta_os.Base.{
  ℕ, zero, suc, ◌+◌, ◌-◌, ◌*◌, ◌/◌, ◌%◌, ◌^◌, ◌≤◌, ◌<◌, ◌≡◌, refl, ap, ◌∙◌, ◌⊎◌, inl, inr, Bool,
  true, false, ◌&&◌, Option, none, some, if◌then◌else◌, ◌==◌, ltb, leb, lt→ltb, Bool-cases, arith,
}
use delta_os.Base.Word.{add64}
use delta_os.Base.Bits.{complement, shl_one}
use delta_os.Kernel.Result.{KernelResult, ok, err, out_of_memory}
use delta_os.Vmm.{
  Machine, Vmm, Step, frame, has_flag, page_size, map_page, identity_loop, identity_map,
  pages_between, translate,
}
use delta_os.Vmm.PageFlags.{present}
use delta_os.Vmm.Masks.{bit_and_high, bit_and_low}
use delta_os.Vmm.Tree.{Layout, IsTree}
use delta_os.Vmm.Leaf.{page_of}
use delta_os.Vmm.Pages.{map_page-translate}

-- The pages from `addr` up to `end`.
abbrev pub within : ℕ → ℕ → ℕ → Bool
within addr end a = leb addr a && ltb (a / 4096 * 4096) end

abbrev result : Step (Unit {0}) → KernelResult (Unit {0})
result s = s.0

abbrev machine : Step (Unit {0}) → Machine
machine s = s.1

-- The tables tell addresses apart by their lowest 48 bits.
abbrev pub low_part : ℕ → ℕ
low_part a = a % 2 ^ 48

module _ (vmm : Vmm) (end flags : ℕ) where
  unfoldable pub IdentityOutcome : ℕ → Machine → Option (Step (Unit {0})) → Type 0
  IdentityOutcome addr m s =
      (m' : Machine) × ((y' : Layout) × IsTree y' vmm.pml4_addr m')
      × ((s ≡ some (err out_of_memory, m'))
          ⊎ ((s ≡ some (ok tt, m'))
              × ((a : ℕ)
                  → translate vmm m' a ≡ (
                      if within addr end (low_part a)
                      then some (low_part a)
                      else translate vmm m a))))

  unfoldable pub Free : ℕ → Machine → Type 0
  Free addr m = (a : ℕ) → addr ≤ a → a < end → a % 4096 ≡ 0 → translate vmm m a ≡ none

  loop_done :
      (fuel : ℕ) (m : Machine) (addr : ℕ)
      → end ≤ addr
      → identity_loop (suc fuel) vmm m addr end flags ≡ some (ok tt, m)
  unfolding identity_loop
  loop_done fuel m addr h = let t : ltb addr end ≡ false = ground arith in rw t refl

  loop_failed :
      (fuel : ℕ) (m m' : Machine) (addr : ℕ)
      → addr < end
      → map_page vmm m addr addr flags ≡ (err out_of_memory, m')
      → identity_loop (suc fuel) vmm m addr end flags ≡ some (err out_of_memory, m')
  unfolding identity_loop
  loop_failed fuel m m' addr h e = rw (lt→ltb addr end h, ap result e, ap machine e) refl

  loop_next :
      (fuel : ℕ) (m m' : Machine) (addr : ℕ)
      → addr < end
      → end ≤ 2 ^ 47
      → map_page vmm m addr addr flags ≡ (ok tt, m')
      → identity_loop (suc fuel) vmm m addr end flags
        ≡ identity_loop fuel vmm m' (addr + page_size) end flags
  unfolding identity_loop
  loop_next fuel m m' addr h k e =
      let w : add64 addr 4096 ≡ addr + 4096 = omega arith in
      rw (lt→ltb addr end h, ap result e, ap machine e, w) refl

  page_in :
      (addr a : ℕ)
      → addr % 4096 ≡ 0
      → addr < end
      → (page_of a == page_of addr) ≡ true
      → end ≤ 2 ^ 47
      → (within addr end (low_part a) ≡ true)
        × (addr + a % 4096 ≡ low_part a)
        × (within (addr + 4096) end (low_part a) ≡ false)
  page_in addr a h l e k = ground arith

  page_out :
      (addr a : ℕ)
      → addr % 4096 ≡ 0
      → addr < end
      → end ≤ 2 ^ 47
      → (page_of a == page_of addr) ≡ false
      → within addr end (low_part a) ≡ within (addr + 4096) end (low_part a)
  page_out addr a h l k e = ground arith

  MapsTo : Machine → Machine → ℕ → Type 0
  MapsTo m m1 addr =
      (a : ℕ)
      → translate vmm m1 a
        ≡ (if page_of a == page_of addr then some (addr + a % 4096) else translate vmm m a)

  still-Free :
      (m m1 : Machine) (addr : ℕ)
      → addr % 4096 ≡ 0
      → end ≤ 2 ^ 47
      → addr < end
      → MapsTo m m1 addr
      → Free addr m
      → Free (addr + 4096) m1
  unfolding Free MapsTo
  still-Free m m1 addr h k lt same free a l g e =
      let other : (page_of a == page_of addr) ≡ false = ground arith in
      same a ∙ rw other (free a (omega arith) g e)

  extended :
      (fuel : ℕ) (m m1 : Machine) (addr : ℕ)
      → addr % 4096 ≡ 0
      → end ≤ 2 ^ 47
      → addr < end
      → map_page vmm m addr addr flags ≡ (ok tt, m1)
      → MapsTo m m1 addr
      → IdentityOutcome (addr + 4096) m1 (identity_loop (suc fuel) vmm m1 (addr + 4096) end flags)
      → IdentityOutcome addr m (identity_loop (suc (suc fuel)) vmm m addr end flags)
  unfolding IdentityOutcome MapsTo
  extended fuel m m1 addr h k lt e same (m', tree, r) =
      let step = loop_next (suc fuel) m m1 addr lt k e in
      elim r [
        | inl f ↦ (m', tree, inl (step ∙ f))
        | inr (f, rest) ↦ (
          m',
          tree,
          inr (
            step ∙ f,
            λ a. rest a ∙ elim (Bool-cases (page_of a == page_of addr)) [
              | inl p ↦
                  let (i, j, out) = page_in addr a h lt p k in rw (i, out) (same a ∙ rw (p, j) refl)
              | inr p ↦ rw (page_out addr a h lt k p) (rw (same a, p) refl)
            ],
          ),
        )
      ]

  pub loop_lem :
      (fuel : ℕ) (m : Machine) (y : Layout) (addr : ℕ)
      → IsTree y vmm.pml4_addr m
      → addr % 4096 ≡ 0
      → end ≤ 2 ^ 47
      → has_flag flags present ≡ true
      → frame flags ≡ 0
      → Free addr m
      → end ≤ addr + fuel * 4096
      → IdentityOutcome addr m (identity_loop (suc fuel) vmm m addr end flags)
  unfolding IdentityOutcome Free MapsTo
  loop_lem zero m y addr tree h k flag low free enough = (
    m,
    (y, tree),
    inr (
      loop_done 0 m addr (omega arith),
      λ a. let out : within addr end (low_part a) ≡ false = ground arith in rw out refl,
    ),
  )
  loop_lem (suc fuel) m y addr tree h k flag low free enough = elim (Bool-cases (ltb addr end)) [
    | inl lt ↦
        let lt' : addr < end = ground arith in
        let (m1, (y1, tree1), r) =
          map_page-translate vmm m y addr addr flags tree h h (omega arith) flag low
            (free addr (omega arith) lt' h) in
        elim r [
          | inl (e, same) ↦ (m1, (y1, tree1), inl (loop_failed (suc fuel) m m1 addr lt' e))
          | inr (e, same) ↦
              let free' : Free (addr + 4096) m1 = still-Free m m1 addr h k lt' same free in
              extended fuel m m1 addr h k lt' e same (
                loop_lem fuel m1 y1 (addr + 4096) tree1 (omega arith) k flag low free'
                  (omega arith))
        ]
    | inr ge ↦ (
      m,
      (y, tree),
      inr (
        loop_done (suc fuel) m addr (ground arith),
        λ a. let out : within addr end (low_part a) ≡ false = ground arith in rw out refl,
      ),
    )
  ]

align :
    (start : ℕ)
    → start < 2 ^ 64
    → bit_and start (complement 64 (page_size - 1)) ≡ start / 4096 * 4096
unfolding complement shl_one
align start h = omega (arith, bit_and_high 12 start (2 ^ 52 - 1), bit_and_low 52 (start / 4096))

-- In a machine whose tables form a tree, let flags be given that are flags only, PRESENT among them,
-- an end of at most 2 ^ 47, and a start, a 64-bit number, such that no page from the start's up to the
-- end is translated. Then the loop of `identity_map` ends, and the tables form a tree after it. Either
-- the result is OutOfMemory, or it is a success, each address in those pages is translated to itself
-- (its lowest 48 bits, by which the tables tell addresses apart), and each other one as before.
pub identity_map_lem :
    (vmm : Vmm) (m : Machine) (y : Layout) (start end flags : ℕ)
    → IsTree y vmm.pml4_addr m
    → start < 2 ^ 64
    → end ≤ 2 ^ 47
    → has_flag flags present ≡ true
    → frame flags ≡ 0
    → Free vmm end flags (start / 4096 * 4096) m
    → IdentityOutcome vmm end flags (start / 4096 * 4096) m (identity_map vmm m start end flags)
unfolding identity_map
identity_map_lem vmm m y start end flags tree l k flag low free =
    let addr : ℕ = start / 4096 * 4096 in
    let fuel : pages_between addr end ≡ suc ((end - addr) / 4096 + 1) = omega arith in
    rw (align start l, fuel)
      (loop_lem vmm end flags ((end - addr) / 4096 + 1) m y addr tree (omega arith) k flag low free
        (omega arith))
