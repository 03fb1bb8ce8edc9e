-- ===== src/Vmm/Pages.antt =====
-- src/memory/vmm.rs: `map_page`, `unmap_page` and `update_flags` as seen through `translate`.
use delta_os.Base.{
  ℕ, ◌+◌, ◌%◌, ◌^◌, ◌<◌, ◌≡◌, refl, sym, ap, subst, ◌∙◌, ◌⊎◌, inl, inr, true, none, some,
  if◌then◌else◌, ◌==◌, ==_iff, Bool-cases, arith,
}
use delta_os.Kernel.Result.{ok, err, out_of_memory}
use delta_os.Vmm.{
  Machine, Vmm, Step, frame, has_flag, get_entry, page_size, map_page, unmap_page, map_walk,
  with_entry, or_not_mapped, next_table, translate,
}
use delta_os.Vmm.PageFlags.{present}
use delta_os.Vmm.Lookup.{
  slot, on, target, frame-target, translate-lookup, get_next_table_addr_lem, pml4_index-slot,
  pdpt_index-slot, pd_index-slot, pt_index-slot,
}
use delta_os.Vmm.Tree.{Layout, IsTree}
use delta_os.Vmm.Reached.{Reached, top, down, Reached-lt_four}
use delta_os.Vmm.Entered.{is_present-on}
use delta_os.Vmm.Leaf.{page_of, leaf, leaf-IsTree, leaf_gone, leaf_other, lookup-none}
use delta_os.Vmm.Mapping.{Mapped, Outcome, walk_lem, entry_on, entry_target}

map_page_runs :
    (vmm : Vmm) (m : Machine) (virt phys flags : ℕ)
    → virt % page_size ≡ 0
    → phys % page_size ≡ 0
    → map_page vmm m virt phys flags ≡ map_walk m vmm.pml4_addr virt phys flags
unfolding map_page
map_page_runs vmm m virt phys flags h k = rw (h, k) refl

map_page_outcome :
    (vmm : Vmm) (m : Machine) (y : Layout) (virt phys flags : ℕ)
    → IsTree y vmm.pml4_addr m
    → virt % page_size ≡ 0
    → phys % page_size ≡ 0
    → phys < 2 ^ 52
    → has_flag flags present ≡ true
    → frame flags ≡ 0
    → translate vmm m virt ≡ none
    → Outcome vmm.pml4_addr virt phys flags m (map_page vmm m virt phys flags)
map_page_outcome vmm m y virt phys flags tree h k small flag low gone =
    rw (map_page_runs vmm m virt phys flags h k) (
      walk_lem vmm.pml4_addr virt phys flags k small flag low m y tree
        (sym (translate-lookup vmm m virt) ∙ gone))

-- In a machine whose tables form a tree, let an aligned address be translated to nothing, and let an
-- aligned physical address below 2 ^ 52 and flags be given that are flags only, PRESENT among them.
-- Then `map_page` ends in one of two ways, and the tables form a tree after it. Either it reports
-- OutOfMemory, and every address is translated as before; or it succeeds, and each address of the
-- page is translated to the physical page and its offset, each other address as before.
pub map_page-translate :
    (vmm : Vmm) (m : Machine) (y : Layout) (virt phys flags : ℕ)
    → IsTree y vmm.pml4_addr m
    → virt % page_size ≡ 0
    → phys % page_size ≡ 0
    → phys < 2 ^ 52
    → has_flag flags present ≡ true
    → frame flags ≡ 0
    → translate vmm m virt ≡ none
    → (m' : Machine) × ((y' : Layout) × IsTree y' vmm.pml4_addr m')
      × (((map_page vmm m virt phys flags ≡ (err out_of_memory, m'))
            × ((a : ℕ) → translate vmm m' a ≡ translate vmm m a))
          ⊎ ((map_page vmm m virt phys flags ≡ (ok tt, m'))
              × ((a : ℕ)
                  → translate vmm m' a ≡ (
                      if page_of a == page_of virt
                      then some (phys + a % 4096)
                      else translate vmm m a))))
unfolding Outcome Mapped
map_page-translate vmm m y virt phys flags tree h k small flag low gone =
    let (m', y', r) = map_page_outcome vmm m y virt phys flags tree h k small flag low gone in
    let kept = translate-lookup vmm m' in
    elim r [
      | inl (e, same) ↦ (m', y', inl (e, λ a. kept a ∙ (same a ∙ sym (translate-lookup vmm m a))))
      | inr (e, (_, same)) ↦ (m', y', inr (e, λ a. kept a ∙ rw (translate-lookup vmm m a) (same a)))
    ]

next_table_down :
    {A : Type 0} (m : Machine) (t i : ℕ) (f : ℕ → Step A)
    → on (get_entry m t i) ≡ true
    → next_table m t i f ≡ f (target (get_entry m t i))
unfolding next_table or_not_mapped
next_table_down m t i f e = rw (get_next_table_addr_lem m t i, e) refl

-- The walk of `unmap_page` and `update_flags` comes to the table that the address's walk does.
walk_down :
    {A : Type 0} (m : Machine) (root virt pt : ℕ) (f : ℕ → Step A)
    → Reached m root virt 0 pt
    → (next_table m root
        (slot 3 virt)
        λ pdpt. next_table m pdpt (slot 2 virt) λ pd. next_table m pd (slot 1 virt) f)
      ≡ f pt
walk_down m root virt pt f (down (down (down top a _) b _) c _) =
    next_table_down m root (slot 3 virt) _ a
    ∙ (next_table_down m _ (slot 2 virt) _ b ∙ next_table_down m _ (slot 1 virt) f c)
walk_down m root virt pt f (down (down (down (down r _ _) _ _) _ _) _ _) =
    let h = Reached-lt_four r in absurd (omega arith)

with_entry_runs :
    {A : Type 0} (vmm : Vmm) (m : Machine) (virt pt : ℕ) (f : ℕ → Step A)
    → virt % page_size ≡ 0
    → Reached m vmm.pml4_addr virt 0 pt
    → on (get_entry m pt (slot 0 virt)) ≡ true
    → with_entry vmm m virt f ≡ f pt
unfolding with_entry
with_entry_runs vmm m virt pt f h reached d =
    rw (pml4_index-slot virt, pdpt_index-slot virt, pd_index-slot virt, pt_index-slot virt, h)
      (walk_down m vmm.pml4_addr virt pt _ reached ∙ rw (is_present-on m pt (slot 0 virt), d) refl)

-- The machine after `unmap_page` and after `update_flags`.
unmap_page_runs :
    (vmm : Vmm) (m : Machine) (virt pt : ℕ)
    → virt % page_size ≡ 0
    → Reached m vmm.pml4_addr virt 0 pt
    → on (get_entry m pt (slot 0 virt)) ≡ true
    → unmap_page vmm m virt
      ≡ (ok (target (get_entry m pt (slot 0 virt))), leaf m pt virt (slot 0 virt) 0)
unfolding unmap_page leaf
unmap_page_runs vmm m virt pt h reached d =
    with_entry_runs vmm m virt pt _ h reached d
    ∙ rw (pt_index-slot virt, frame-target (get_entry m pt (slot 0 virt))) refl

unmap-Mapped :
    (vmm : Vmm) (m m' : Machine) (y' : Layout) (virt phys flags : ℕ)
    → IsTree y' vmm.pml4_addr m'
    → virt % page_size ≡ 0
    → phys % page_size ≡ 0
    → phys < 2 ^ 52
    → has_flag flags present ≡ true
    → frame flags ≡ 0
    → translate vmm m virt ≡ none
    → Mapped vmm.pml4_addr virt phys flags m m'
    → (m2 : Machine) × (unmap_page vmm m' virt ≡ (ok phys, m2))
      × ((y2 : Layout) × IsTree y2 vmm.pml4_addr m2)
      × ((a : ℕ) → translate vmm m2 a ≡ translate vmm m a)
unfolding Mapped on
unmap-Mapped vmm m m' y' virt phys flags tree h k small flag low gone ((pt, reached, read), same) =
    let root : ℕ = vmm.pml4_addr in
    let i : ℕ = slot 0 virt in
    let on_entry = ap on read ∙ entry_on root virt phys flags k small flag low in
    let to = ap target read ∙ entry_target root virt phys flags k small flag low in
    (
      leaf m' pt virt i 0,
      unmap_page_runs vmm m' virt pt h reached on_entry
          ∙ ap (λ (p : ℕ). (ok p, leaf m' pt virt i 0)) to,
      (y', leaf-IsTree y' root m' tree virt pt 0 reached),
      λ a.
          translate-lookup vmm (leaf m' pt virt i 0) a
          ∙ (elim (Bool-cases (page_of a == page_of virt)) [
            | inl p ↦
                let e = (==_iff (page_of a) (page_of virt)).0 p in
                leaf_gone y' root m' tree virt pt 0 reached a e refl
                ∙ sym (
                    lookup-none m a virt e 3 root (omega arith)
                      (sym (translate-lookup vmm m virt) ∙ gone))
            | inr p ↦
                leaf_other y' root m' tree virt pt 0 reached a (λ q. ground arith)
                ∙ (same a ∙ rw p refl)
          ]
              ∙ sym (translate-lookup vmm m a)),
    )

-- A page that was just mapped, unmapped again: in a machine whose tables form a tree, let `map_page`
-- succeed at an aligned address that is translated to nothing, with an aligned physical address below
-- 2 ^ 52 and flags that are flags only, PRESENT among them. Then `unmap_page` of the address returns
-- the physical address, every address is translated as before the two, and the tables form a tree.
pub unmap_page-map_page :
    (vmm : Vmm) (m m1 : Machine) (y : Layout) (virt phys flags : ℕ)
    → IsTree y vmm.pml4_addr m
    → virt % page_size ≡ 0
    → phys % page_size ≡ 0
    → phys < 2 ^ 52
    → has_flag flags present ≡ true
    → frame flags ≡ 0
    → translate vmm m virt ≡ none
    → map_page vmm m virt phys flags ≡ (ok tt, m1)
    → (m' : Machine) × (unmap_page vmm m1 virt ≡ (ok phys, m'))
      × ((y' : Layout) × IsTree y' vmm.pml4_addr m')
      × ((a : ℕ) → translate vmm m' a ≡ translate vmm m a)
unfolding Outcome
unmap_page-map_page vmm m m1 y virt phys flags tree h k small flag low gone e =
    let (m', (y', tree'), r) =
      map_page_outcome vmm m y virt phys flags tree h k small flag low gone in
    elim r [
      | inl (f, _) ↦ absurd (grind (arith, e, f))
      | inr (f, mapped) ↦
          let same : m' ≡ m1 = ap (λ (s : Step (Unit {0})). s.1) (sym f ∙ e) in
          subst
            (λ (n : Machine).
              (m2 : Machine) × (unmap_page vmm n virt ≡ (ok phys, m2))
              × ((y2 : Layout) × IsTree y2 vmm.pml4_addr m2)
              × ((a : ℕ) → translate vmm m2 a ≡ translate vmm m a))
            same (unmap-Mapped vmm m m' y' virt phys flags tree' h k small flag low gone mapped)
    ]
