-- ===== src/Tests/Memory.antt =====
-- src/memory/vmm.rs: the theorems on an empty top table.
use delta_os.Base.{
  ℕ, ◌+◌, ◌/◌, ◌*◌, ◌∙◌, ◌%◌, ◌≡◌, refl, ◌⊎◌, inl, none, some, [], if◌then◌else◌, ◌==◌, arith,
}
use delta_os.Base.Bits.{shl_one}
use delta_os.Kernel.Result.{ok, err, out_of_memory}
use delta_os.Vmm.{
  Machine, Vmm, and_then, set_entry, clear_page, is_present, get_next_table_addr, invlpg,
  table_entry, alloc_page_table, add_table, unwrap, enter_table, map_entry, map_walk, pml4_index,
  pdpt_index, pd_index, pt_index, first_page_addr, frame, has_flag, get_entry, map_page, unmap_page,
  identity_map, translate,
}
use delta_os.Vmm.PageFlags.{default}
use delta_os.Vmm.Lookup.{on, lookup, translate-lookup}
use delta_os.Vmm.Tree.{Layout, IsTree}
use delta_os.Vmm.Leaf.{page_of}
use delta_os.Vmm.Pages.{map_page-translate, unmap_page-map_page}
use delta_os.Vmm.Identity.{IdentityOutcome, Free, identity_map_lem}

abbrev vmm : Vmm
vmm = record { pml4_addr = 0x1000 }

abbrev empty : Machine
empty = record {
  words = λ (a : ℕ). 0;
  next_page_addr = first_page_addr;
  cr3 = 0x1000;
  invalidated = [];
}

abbrev layout : Layout
layout = record { level = λ (t : ℕ). if t == 0x1000 then 3 else 4; prefix = λ (t : ℕ). 0 }

empty-IsTree : IsTree layout 0x1000 empty
unfolding on get_entry
empty-IsTree = record {
  root_level = refl;
  root_prefix = refl;
  aligned = λ t h. ground arith;
  apart = λ t h. inl (ground arith);
  next_aligned = refl;
  child = λ t i l e h g a b. ground (arith, a);
}

nothing : (a : ℕ) → translate vmm empty a ≡ none
unfolding lookup on get_entry
nothing a = translate-lookup vmm empty a ∙ refl

map_page-translate_example :
    (m' : Machine) × ((y' : Layout) × IsTree y' 0x1000 m')
    × (((map_page vmm empty 0x400000 0x200000 default ≡ (err out_of_memory, m'))
          × ((a : ℕ) → translate vmm m' a ≡ translate vmm empty a))
        ⊎ ((map_page vmm empty 0x400000 0x200000 default ≡ (ok tt, m'))
            × ((a : ℕ)
                → translate vmm m' a ≡ (
                    if page_of a == page_of 0x400000
                    then some (0x200000 + a % 4096)
                    else translate vmm empty a))))
unfolding has_flag frame shl_one
map_page-translate_example =
    map_page-translate vmm empty layout 0x400000 0x200000 default empty-IsTree refl refl
      (omega arith) refl refl (nothing 0x400000)

translate-lookup_example : translate vmm empty 0x400123 ≡ lookup 3 empty 0x1000 0x400123
translate-lookup_example = translate-lookup vmm empty 0x400123

identity_map_lem_example :
    IdentityOutcome vmm 0x203000 default
      (0x201234 / 4096 * 4096)
      empty
      (identity_map vmm empty 0x201234 0x203000 default)
unfolding has_flag frame shl_one IdentityOutcome Free
identity_map_lem_example =
    identity_map_lem vmm empty layout 0x201234 0x203000 default empty-IsTree (omega arith)
      (omega arith) refl refl (λ a _ _ _. nothing a)

abbrev mapped : Machine
mapped = (map_page vmm empty 0x400000 0x200000 default).1

map_page_succeeds : map_page vmm empty 0x400000 0x200000 default ≡ (ok tt, mapped)
unfolding and_then set_entry clear_page is_present get_next_table_addr invlpg table_entry
    alloc_page_table add_table unwrap enter_table map_entry map_walk pml4_index pdpt_index pd_index
    pt_index get_entry has_flag frame shl_one map_page
map_page_succeeds = refl

unmap_page-map_page_example :
    (m' : Machine) × (unmap_page vmm mapped 0x400000 ≡ (ok 0x200000, m'))
    × ((y' : Layout) × IsTree y' 0x1000 m')
    × ((a : ℕ) → translate vmm m' a ≡ translate vmm empty a)
unfolding has_flag frame shl_one
unmap_page-map_page_example =
    unmap_page-map_page vmm empty mapped layout 0x400000 0x200000 default empty-IsTree refl refl
      (omega arith) refl refl (nothing 0x400000) map_page_succeeds
