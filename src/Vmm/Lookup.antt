-- ===== src/Vmm/Lookup.antt =====
-- src/memory/vmm.rs: what an address is translated to, by recursion on the levels and in plain
-- arithmetic; and the children of Vmm's tables on which the operations are described.
use Prim.Native.Nat.{bit_and}
use delta_os.Base.{
  ℕ, zero, suc, ◌+◌, ◌-◌, ◌*◌, ◌/◌, ◌%◌, ◌^◌, ◌≡◌, refl, sym, inl, inr, Bool, ◌&&◌, Option, none,
  some, if◌then◌else◌, ltb, lt→ltb, ◌<◌, ◌==◌, Bool-cases, arith,
}
use delta_os.Vmm.{
  Machine, Vmm, frame, get_entry, has_flag, is_present, get_next_table_addr, pml4_index, pdpt_index,
  pd_index, pt_index, check_huge_page, try_some, return_some, translate_entry, translate,
}
use delta_os.Vmm.PageFlags.{present, huge_page}
use delta_os.Vmm.Masks.{
  index_mask, offset_mask, mid_mask, big_mask, frame_lem, has_flag-present, has_flag-huge_page,
}

-- The entry of an address in a table of a level, and what an entry says.
unfoldable pub slot : ℕ → ℕ → ℕ
slot level virt = virt / 2 ^ (12 + 9 * level) % 512

unfoldable pub on : ℕ → Bool
on entry = entry % 2 == 1

unfoldable pub huge : ℕ → Bool
huge entry = entry / 128 % 2 == 1

unfoldable pub target : ℕ → ℕ
target entry = entry / 4096 % 2 ^ 40 * 4096

-- A table of level 1 or 2 may hold an entry for a large page.
abbrev pub stops : ℕ → ℕ → Bool
stops level entry = ltb level 3 && huge entry

unfoldable pub lookup : ℕ → Machine → ℕ → ℕ → Option ℕ
lookup zero m table virt =
    let entry : ℕ = get_entry m table (slot 0 virt) in
    if on entry then some (target entry + virt % 4096) else none
lookup (suc level) m table virt =
    let entry : ℕ = get_entry m table (slot (suc level) virt) in
    let rest = lookup level m (target entry) virt in
    if on entry
    then if stops (suc level) entry
      then some (target entry + virt % 2 ^ (12 + 9 * suc level))
      else rest
    else none

pub frame-target : (entry : ℕ) → frame entry ≡ target entry
unfolding target
frame-target = frame_lem

pub has_flag-on : (entry : ℕ) → has_flag entry present ≡ on entry
unfolding on
has_flag-on = has_flag-present

has_flag-huge : (entry : ℕ) → has_flag entry huge_page ≡ huge entry
unfolding huge
has_flag-huge = has_flag-huge_page

pub get_next_table_addr_lem :
    (m : Machine) (table index : ℕ)
    → get_next_table_addr m table index
      ≡ (if on (get_entry m table index) then some (target (get_entry m table index)) else none)
unfolding get_next_table_addr has_flag
get_next_table_addr_lem m table index =
    let e = get_entry m table index in rw (frame-target e, sym (has_flag-on e)) (ground arith)

check_huge_page_lem :
    (m : Machine) (table index virt shift : ℕ)
    → check_huge_page m table index virt shift ≡ (
        if huge (get_entry m table index) && on (get_entry m table index)
        then some (target (get_entry m table index) + bit_and virt (2 ^ shift - 1))
        else none)
unfolding check_huge_page
check_huge_page_lem m table index virt shift =
    let e = get_entry m table index in
    rw (frame-target e, sym (has_flag-on e), sym (has_flag-huge e)) refl

pub pml4_index-slot : (virt : ℕ) → pml4_index virt ≡ slot 3 virt
unfolding pml4_index slot
pml4_index-slot virt = index_mask (virt / 2 ^ 39)

pub pdpt_index-slot : (virt : ℕ) → pdpt_index virt ≡ slot 2 virt
unfolding pdpt_index slot
pdpt_index-slot virt = index_mask (virt / 2 ^ 30)

pub pd_index-slot : (virt : ℕ) → pd_index virt ≡ slot 1 virt
unfolding pd_index slot
pd_index-slot virt = index_mask (virt / 2 ^ 21)

pub pt_index-slot : (virt : ℕ) → pt_index virt ≡ slot 0 virt
unfolding pt_index slot
pt_index-slot virt = index_mask (virt / 2 ^ 12)

translate_entry-lookup :
    (m : Machine) (pt virt : ℕ) → translate_entry m pt virt ≡ lookup 0 m pt virt
unfolding translate_entry is_present lookup
translate_entry-lookup m pt virt =
    rw
      (
        pt_index-slot virt,
        has_flag-on (get_entry m pt (slot 0 virt)),
        frame-target (get_entry m pt (slot 0 virt)),
        offset_mask virt,
      )
      (ground arith)

-- One level of `translate`, where the rest is known to be the lookup in the next table.
step_lookup :
    (level : ℕ) (m : Machine) (table virt shift : ℕ) (rest : ℕ → Option ℕ)
    → suc level < 3
    → bit_and virt (2 ^ shift - 1) ≡ virt % 2 ^ (12 + 9 * suc level)
    → ((next : ℕ) → rest next ≡ lookup level m next virt)
    → return_some
        (check_huge_page m table (slot (suc level) virt) virt shift)
        (try_some (get_next_table_addr m table (slot (suc level) virt)) rest)
      ≡ lookup (suc level) m table virt
unfolding lookup
step_lookup level m table virt shift rest h mask e =
    let i : ℕ = slot (suc level) virt in
    let entry : ℕ = get_entry m table i in
    rw
      (
        check_huge_page_lem m table i virt shift,
        get_next_table_addr_lem m table i,
        mask,
        lt→ltb (suc level) 3 h,
      )
      (elim (Bool-cases (on entry)) [
        | inl p ↦ elim (Bool-cases (huge entry)) [
          | inl q ↦ rw (p, q) refl
          | inr q ↦ rw (p, q) (e (target entry))
        ]
        | inr p ↦ rw p (ground arith)
      ])

top_lookup :
    (m : Machine) (table virt : ℕ) (rest : ℕ → Option ℕ)
    → ((next : ℕ) → rest next ≡ lookup 2 m next virt)
    → try_some (get_next_table_addr m table (slot 3 virt)) rest ≡ lookup 3 m table virt
unfolding lookup
top_lookup m table virt rest e =
    let entry : ℕ = get_entry m table (slot 3 virt) in
    rw (get_next_table_addr_lem m table (slot 3 virt))
      (elim (Bool-cases (on entry)) [ inl p ↦ rw p (e (target entry)) | inr p ↦ rw p refl ])

-- The code's translation from the table of each level.
abbrev from_pd : Machine → ℕ → ℕ → Option ℕ
from_pd m virt pd =
    return_some (check_huge_page m pd (pd_index virt) virt 21)
      (try_some (get_next_table_addr m pd (pd_index virt)) λ pt. translate_entry m pt virt)

abbrev from_pdpt : Machine → ℕ → ℕ → Option ℕ
from_pdpt m virt pdpt =
    return_some (check_huge_page m pdpt (pdpt_index virt) virt 30)
      (try_some (get_next_table_addr m pdpt (pdpt_index virt)) (from_pd m virt))

from_pd-lookup : (m : Machine) (virt pd : ℕ) → from_pd m virt pd ≡ lookup 1 m pd virt
from_pd-lookup m virt pd = rw (pd_index-slot virt) (
    step_lookup 0 m pd virt 21 (λ pt. translate_entry m pt virt) (omega arith) (mid_mask virt)
      (λ pt. translate_entry-lookup m pt virt))

from_pdpt-lookup : (m : Machine) (virt pdpt : ℕ) → from_pdpt m virt pdpt ≡ lookup 2 m pdpt virt
from_pdpt-lookup m virt pdpt = rw (pdpt_index-slot virt) (
    step_lookup 1 m pdpt virt 30 (from_pd m virt) (omega arith) (big_mask virt)
      (from_pd-lookup m virt))

-- For every machine and address, `translate` gives what the recursion on four levels finds from the
-- top table: at each level the entry of nine bits of the address, nothing where it is not present, the
-- large page and the offset in it at a large entry of levels 1 and 2, and at level 0 the page and the
-- offset of twelve bits.
pub translate-lookup :
    (vmm : Vmm) (m : Machine) (virt : ℕ) → translate vmm m virt ≡ lookup 3 m vmm.pml4_addr virt
unfolding translate
translate-lookup vmm m virt =
    rw (pml4_index-slot virt)
      (top_lookup m vmm.pml4_addr virt (from_pdpt m virt) (from_pdpt-lookup m virt))
