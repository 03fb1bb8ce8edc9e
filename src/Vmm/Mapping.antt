-- ===== src/Vmm/Mapping.antt =====
-- src/memory/vmm.rs: `map_page` changes the translation of one page.
use Prim.Native.Nat.{bit_or}
use delta_os.Base.{
  ℕ, suc, ◌+◌, ◌%◌, ◌^◌, ◌<◌, ◌≡◌, refl, sym, ap, ◌∙◌, ◌⊎◌, inl, inr, true, false, Option, none,
  some, if◌then◌else◌, ◌==◌, ==_iff, Bool-cases, arith,
}
use delta_os.Base.Bits.{bit_or_step}
use delta_os.Kernel.Result.{ok, err, out_of_memory}
use delta_os.Vmm.{
  Machine, Step, and_then, frame, has_flag, get_entry, enter_table, map_entry, map_walk,
}
use delta_os.Vmm.PageFlags.{present}
use delta_os.Vmm.Masks.{frame_lem, frame-bit_or}
use delta_os.Vmm.Lookup.{
  slot, on, target, lookup, has_flag-on, frame-target, pml4_index-slot, pdpt_index-slot,
  pd_index-slot, pt_index-slot,
}
use delta_os.Vmm.Tree.{Layout, IsTree}
use delta_os.Vmm.Reached.{Reached, top, Reached-lookup}
use delta_os.Vmm.Entered.{Entered, is_present-on, enter_table_lem}
use delta_os.Vmm.Leaf.{page_of, leaf, leaf-IsTree, leaf-Reached, leaf_entry, leaf_same, leaf_other}

module _ (root virt phys flags : ℕ) where
  -- Out of memory, or the page is mapped and the others are as before.
  unfoldable pub Mapped : (m m' : Machine) → Type 0
  Mapped m m' =
      ((pt : ℕ) × Reached m' root virt 0 pt × (get_entry m' pt (slot 0 virt) ≡ bit_or phys flags))
      × ((a : ℕ)
          → lookup 3 m' root a
            ≡ (if page_of a == page_of virt then some (phys + a % 4096) else lookup 3 m root a))

  unfoldable pub Outcome : Machine → Step (Unit {0}) → Type 0
  Outcome m s =
      (m' : Machine) × ((y' : Layout) × IsTree y' root m')
      × (((s ≡ (err out_of_memory, m')) × ((a : ℕ) → lookup 3 m' root a ≡ lookup 3 m root a))
          ⊎ ((s ≡ (ok tt, m')) × Mapped m m'))

  -- A machine that translates the same may be put for the one before.
  Outcome-before :
      (m n : Machine) (s : Step (Unit {0}))
      → ((a : ℕ) → lookup 3 n root a ≡ lookup 3 m root a)
      → Outcome n s
      → Outcome m s
  unfolding Outcome Mapped
  Outcome-before m n s same (m', y, inl (e, kept)) = (m', y, inl (e, λ a. kept a ∙ same a))
  Outcome-before m n s same (m', y, inr (e, (w, f))) = (
    m',
    y,
    inr (
      e,
      (
        w,
        λ a.
            f a
            ∙ ap (λ (o : Option ℕ). if page_of a == page_of virt then some (phys + a % 4096) else o)
                (same a),
      ),
    ),
  )

  enter_then :
      (y : Layout) (m : Machine) (k t : ℕ) (f : ℕ → Machine → Step (Unit {0}))
      → IsTree y root m
      → Reached m root virt (suc k) t
      → lookup 3 m root virt ≡ none
      → ((n : ℕ) (m1 : Machine) (y1 : Layout)
          → IsTree y1 root m1
          → Reached m1 root virt k n
          → lookup 3 m1 root virt ≡ none
          → Outcome m1 (f n m1))
      → Outcome m (and_then (enter_table m t (slot (suc k) virt)) f)
  unfolding Outcome Entered and_then
  enter_then y m k t f tree reached none_m next =
      elim (enter_table_lem y root m tree virt k t reached none_m) [
        | inl e ↦ rw e (m, (y, tree), inl (refl, λ a. refl))
        | inr (n, m1, y1, e, tree1, r1, same) ↦
            rw e (Outcome-before m m1 (f n m1) same (next n m1 y1 tree1 r1 (same virt ∙ none_m)))
      ]

  module _ (aligned : phys % 4096 ≡ 0) (small : phys < 2 ^ 52)
      (flag : has_flag flags present ≡ true) (low : frame flags ≡ 0) where
    pub entry_on : on (bit_or phys flags) ≡ true
    unfolding on
    entry_on =
        let a : flags % 2 ≡ 1 = (==_iff _ 1).0 (sym (has_flag-on flags) ∙ flag) in
        ground (arith, bit_or_step phys flags, aligned, a)

    pub entry_target : target (bit_or phys flags) ≡ phys
    entry_target =
        sym (frame-target (bit_or phys flags))
        ∙ frame-bit_or phys flags aligned small (omega (arith, frame_lem flags, low))

    entry_off :
        (n : ℕ) (m : Machine) → lookup 0 m n virt ≡ none → on (get_entry m n (slot 0 virt)) ≡ false
    unfolding lookup
    entry_off n m e = ground (arith, e)

    map_entry_runs :
        (n : ℕ) (m : Machine)
        → on (get_entry m n (slot 0 virt)) ≡ false
        → map_entry m n virt phys flags ≡ (ok tt, leaf m n virt (slot 0 virt) (bit_or phys flags))
    unfolding map_entry leaf
    map_entry_runs n m e = rw (pt_index-slot virt, is_present-on m n (slot 0 virt), e) refl

    map_entry_lem :
        (n : ℕ) (m : Machine) (y : Layout)
        → IsTree y root m
        → Reached m root virt 0 n
        → lookup 3 m root virt ≡ none
        → Outcome m (map_entry m n virt phys flags)
    unfolding Outcome Mapped
    map_entry_lem n m y tree reached gone =
        let entry : ℕ = bit_or phys flags in
        let e = entry_off n m (sym (Reached-lookup virt (λ k h. refl) reached) ∙ gone) in
        (
          leaf m n virt (slot 0 virt) entry,
          (y, leaf-IsTree y root m tree virt n entry reached),
          inr (
            map_entry_runs n m e,
            (
              (
                n,
                leaf-Reached y root m tree virt n entry reached,
                leaf_entry y root m tree virt n entry reached,
              ),
              λ a. elim (Bool-cases (page_of a == page_of virt)) [
                | inl p ↦ rw p (
                    leaf_same y root m tree virt n entry reached a ((==_iff _ _).0 p) entry_on
                    ∙ ap (λ (z : ℕ). some (z + a % 4096)) entry_target)
                | inr p ↦ rw p (leaf_other y root m tree virt n entry reached a (λ q. ground arith))
              ],
            ),
          ),
        )

    pub walk_lem :
        (m : Machine) (y : Layout)
        → IsTree y root m
        → lookup 3 m root virt ≡ none
        → Outcome m (map_walk m root virt phys flags)
    unfolding map_walk
    walk_lem m y tree gone =
        rw (pml4_index-slot virt, pdpt_index-slot virt, pd_index-slot virt)
          (enter_then y m 2 root _ tree top gone λ pdpt m1 y1 t1 r1 g1.
            enter_then y1 m1 1 pdpt _ t1 r1 g1 λ pd m2 y2 t2 r2 g2.
              enter_then y2 m2 0 pd _ t2 r2 g2 λ pt m3 y3 t3 r3 g3. map_entry_lem pt m3 y3 t3 r3 g3)
