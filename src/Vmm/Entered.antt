-- ===== src/Vmm/Entered.antt =====
-- src/memory/vmm.rs: one level of `map_page`, at an address that is not translated.
use delta_os.Base.{
  ℕ, suc, ◌+◌, ◌*◌, ◌%◌, ◌^◌, ◌≤◌, ◌<◌, ◌≡◌, refl, sym, ap, subst, ◌∙◌, ◌⊎◌, inl, inr, true, false,
  none, some, ltb, lt→ltb, Bool-cases, arith,
}
use delta_os.Kernel.Result.{ok, err, out_of_memory}
use delta_os.Vmm.{
  Machine, Step, and_then, get_entry, table_entry, is_present, unwrap, alloc_page_table, add_table,
  enter_table, vmm_pages_end,
}
use delta_os.Vmm.Lookup.{slot, on, target, stops, lookup, has_flag-on, get_next_table_addr_lem}
use delta_os.Vmm.Tree.{Layout, IsTree, slot_lt}
use delta_os.Vmm.Reached.{
  Reached, down, Reached-path, Reached-lookup, Reached-lt_four, Reached-Agrees,
}
use delta_os.Vmm.Added.{
  added, place, added-Agrees, added_entry, lookup-added, added-IsTree, linked, linked_stops,
}

pub is_present-on : (m : Machine) (t i : ℕ) → is_present m t i ≡ on (get_entry m t i)
unfolding is_present
is_present-on m t i = has_flag-on (get_entry m t i)

enter_present :
    (m : Machine) (t i : ℕ)
    → on (get_entry m t i) ≡ true
    → enter_table m t i ≡ (ok (target (get_entry m t i)), m)
unfolding enter_table and_then unwrap
enter_present m t i a = rw (is_present-on m t i, a, get_next_table_addr_lem m t i, a) refl

enter_full :
    (m : Machine) (t i : ℕ)
    → on (get_entry m t i) ≡ false
    → vmm_pages_end < m.next_page_addr + 4096
    → enter_table m t i ≡ (err out_of_memory, m)
unfolding enter_table and_then add_table alloc_page_table
enter_full m t i a full =
    rw (is_present-on m t i, a, lt→ltb vmm_pages_end (m.next_page_addr + 4096) full) refl

enter_added :
    (m : Machine) (t i : ℕ)
    → on (get_entry m t i) ≡ false
    → m.next_page_addr + 4096 ≤ vmm_pages_end
    → get_entry (added m t i) t i ≡ table_entry m.next_page_addr
    → on (table_entry m.next_page_addr) ≡ true
    → target (table_entry m.next_page_addr) ≡ m.next_page_addr
    → enter_table m t i ≡ (ok m.next_page_addr, added m t i)
unfolding enter_table and_then add_table alloc_page_table added unwrap
enter_added m t i a room read b c =
    let l : ltb vmm_pages_end (m.next_page_addr + 4096) ≡ false = ground arith in
    rw (is_present-on m t i, a, l, get_next_table_addr_lem (added m t i) t i, read, b, c) refl

-- The table of the next level, on the address's walk in a machine that translates as before.
unfoldable pub Entered : ℕ → Machine → ℕ → ℕ → Step ℕ → Type 0
Entered root m virt k s =
    (n : ℕ) × (m' : Machine) × (y' : Layout) × (s ≡ (ok n, m'))
    × IsTree y' root m'
    × Reached m' root virt k n
    × ((a : ℕ) → lookup 3 m' root a ≡ lookup 3 m root a)

lookup-stops :
    (m : Machine) (t k virt : ℕ)
    → lookup (suc k) m t virt ≡ none
    → on (get_entry m t (slot (suc k) virt)) ≡ true
    → stops (suc k) (get_entry m t (slot (suc k) virt)) ≡ false
unfolding lookup
lookup-stops m t k virt e a =
    elim (Bool-cases (stops (suc k) (get_entry m t (slot (suc k) virt)))) [
      | inl b ↦
          let entry : ℕ = get_entry m t (slot (suc k) virt) in
          let found : lookup (suc k) m t virt ≡ some (target entry + virt % 2 ^ (12 + 9 * suc k)) =
            rw (a, b) refl in
          absurd (grind (arith, e, found))
      | inr b ↦ b
    ]

module _ (y : Layout) (root : ℕ) (m : Machine) (tree : IsTree y root m) (virt k t : ℕ)
    (reached : Reached m root virt (suc k) t) (unmapped : lookup 3 m root virt ≡ none) where
  abbrev i : ℕ
  i = slot (suc k) virt

  Entered-present : on (get_entry m t i) ≡ true → Entered root m virt k (enter_table m t i)
  unfolding Entered
  Entered-present a =
      let b =
        lookup-stops m t k virt (sym (Reached-lookup virt (λ l h. refl) reached) ∙ unmapped) a in
      (target (get_entry m t i), m, y, enter_present m t i a, tree, down reached a b, λ v. refl)

  Entered-added :
      on (get_entry m t i) ≡ false
      → m.next_page_addr + 4096 ≤ vmm_pages_end
      → Entered root m virt k (enter_table m t i)
  unfolding Entered
  Entered-added a room =
      let (level_t, _) = Reached-path y tree reached in
      let k_lt : k < 3 = omega (arith, Reached-lt_four reached) in
      let g = slot_lt (suc k) virt in
      let (p, _, q) = linked y root m tree t i k level_t k_lt g room in
      let read = added_entry y root m tree t i k level_t k_lt g room in
      let r =
        Reached-Agrees y t i tree (added-Agrees y root m tree t i k level_t k_lt g room) (λ _ _. a)
          reached in
      let stop = linked_stops y root m tree t i k level_t k_lt g room (suc k) in
      let below : Reached (added m t i) root virt k (target (get_entry (added m t i) t i)) =
        down r (ap on read ∙ p) (ap (stops (suc k)) read ∙ stop) in
      (
        m.next_page_addr,
        added m t i,
        place y m.next_page_addr k (y.prefix t * 512 + i),
        enter_added m t i a room read p q,
        added-IsTree y root m tree t i k level_t k_lt g room,
        subst (Reached (added m t i) root virt k) (ap target read ∙ q) below,
        λ v. lookup-added y root m tree t i k level_t k_lt g room v a,
      )

  pub enter_table_lem :
      (enter_table m t i ≡ (err out_of_memory, m)) ⊎ Entered root m virt k (enter_table m t i)
  enter_table_lem = elim (Bool-cases (on (get_entry m t i))) [
    | inl a ↦ inr (Entered-present a)
    | inr a ↦ elim (Bool-cases (ltb vmm_pages_end (m.next_page_addr + 4096))) [
      | inl b ↦ inl (enter_full m t i a (ground arith))
      | inr b ↦ inr (Entered-added a (ground arith))
    ]
  ]
