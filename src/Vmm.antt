-- ===== src/Vmm.antt =====
-- src/memory/vmm.rs: four-level page tables in memory. Memory is read and written by 64-bit words at
-- multiples of 8; `&mut *(addr as *mut PageTable)` is the table at a physical address.
pub mod PageFlags
pub mod Masks
pub mod Lookup
pub mod Tree
pub mod Reached
pub mod Added
pub mod Entered
pub mod Leaf
pub mod Mapping
pub mod Pages
pub mod Identity
use Prim.Native.Nat.{bit_and, bit_or}
use delta_os.Base.{
  ℕ, zero, suc, ◌+◌, ◌-◌, ◌*◌, ◌/◌, ◌%◌, ◌^◌, ◌≤◌, ◌<◌, Bool, true, false, not, ◌&&◌, ◌||◌, Option,
  none, some, List, [], ◌∷◌, if◌then◌else◌, ltb, leb, ◌==◌,
}
use delta_os.Base.Bits.{complement}
use delta_os.Base.Word.{add64}
use delta_os.Kernel.Result.{
  KernelResult, ok, err, out_of_memory, invalid_argument, page_not_mapped, page_already_mapped,
}
use delta_os.Pmm.{page_size}
use delta_os.Vmm.PageFlags.{present, writable, huge_page}

-- The static `NEXT_PAGE_ADDR`, the register CR3, the words of memory, and the addresses given to
-- `invlpg`, the latest first.
pub record Machine : Type 0 where
  pub words : ℕ → ℕ
  pub next_page_addr : ℕ
  pub cr3 : ℕ
  pub invalidated : List ℕ

pub record Vmm : Type 0 where
  pub pml4_addr : ℕ

abbrev pub first_page_addr : ℕ
first_page_addr = 0x700000

abbrev pub vmm_pages_end : ℕ
vmm_pages_end = 0x800000

abbrev pub frame_mask : ℕ
frame_mask = 0x000FFFFFFFFFF000

-- `entry & 0x000FFFFFFFFFF000`
unfoldable pub frame : ℕ → ℕ
frame entry = bit_and entry frame_mask

unfoldable pub get_entry : Machine → ℕ → ℕ → ℕ
get_entry m table index = m.words (table + 8 * index)

unfoldable pub set_entry : Machine → ℕ → ℕ → ℕ → Machine
set_entry m table index value = record m {
  words = λ (a : ℕ). if a == table + 8 * index then value else m.words a;
}

unfoldable pub has_flag : ℕ → ℕ → Bool
has_flag entry flag = not (bit_and entry flag == 0)

unfoldable pub is_present : Machine → ℕ → ℕ → Bool
is_present m table index = has_flag (get_entry m table index) present

unfoldable pub get_next_table_addr : Machine → ℕ → ℕ → Option ℕ
get_next_table_addr m table index =
    let entry : ℕ = get_entry m table index in
    if bit_and entry present == 0 then none else some (frame entry)

unfoldable pub new : Machine → Vmm
new m = record { pml4_addr = frame m.cr3 }

unfoldable pub write_cr3 : Machine → ℕ → Machine
write_cr3 m addr = record m { cr3 = addr }

unfoldable pub invlpg : Machine → ℕ → Machine
invlpg m virt = record m { invalidated = virt ∷ m.invalidated }

-- `(virt >> shift) & 0x1FF`
abbrev pub index_at : ℕ → ℕ → ℕ
index_at shift virt = bit_and (virt / 2 ^ shift) 0x1FF

unfoldable pub pml4_index : ℕ → ℕ
pml4_index virt = index_at 39 virt

unfoldable pub pdpt_index : ℕ → ℕ
pdpt_index virt = index_at 30 virt

unfoldable pub pd_index : ℕ → ℕ
pd_index virt = index_at 21 virt

unfoldable pub pt_index : ℕ → ℕ
pt_index virt = index_at 12 virt

-- A step that can fail, in a machine that it can change.
abbrev pub Step : Type 0 → Type 0
Step A = KernelResult A × Machine

unfoldable pub and_then : {A B : Type 0} → Step A → (A → Machine → Step B) → Step B
and_then (ok a, m) f = f a m
and_then (err e, m) f = (err e, m)

-- `ptr::write_bytes(addr, 0, PAGE_SIZE)`
unfoldable pub clear_page : Machine → ℕ → Machine
clear_page m addr = record m {
  words = λ (a : ℕ). if leb addr a && ltb a (addr + page_size) then 0 else m.words a;
}

unfoldable pub alloc_page_table : Machine → Step ℕ
unfolding clear_page
alloc_page_table m =
    let addr : ℕ = m.next_page_addr in
    if ltb vmm_pages_end (addr + page_size)
    then (err out_of_memory, m)
    else (ok addr, clear_page (record m { next_page_addr = addr + page_size }) addr)

-- The entry that `map_page` writes for a new table.
unfoldable pub table_entry : ℕ → ℕ
table_entry new_table = bit_or (bit_or new_table present) writable

unfoldable pub add_table : Machine → ℕ → ℕ → Step (Unit {0})
add_table m table index =
    and_then (alloc_page_table m)
      λ new_table m'. (ok tt, set_entry m' table index (table_entry new_table))

-- One level of `map_page`: the table behind an entry, added where the entry is not present. The
-- `unwrap` cannot fail, since the entry is present by then.
unfoldable pub unwrap : Option ℕ → ℕ
unwrap none = 0
unwrap (some a) = a

unfoldable pub enter_table : Machine → ℕ → ℕ → Step ℕ
enter_table m table index =
    and_then (if not (is_present m table index) then add_table m table index else (ok tt, m))
      λ _ m'. (ok (unwrap (get_next_table_addr m' table index)), m')

-- The last level of `map_page`.
unfoldable pub map_entry : Machine → ℕ → ℕ → ℕ → ℕ → Step (Unit {0})
map_entry m pt virt phys flags =
    if is_present m pt (pt_index virt)
    then (err page_already_mapped, m)
    else (ok tt, invlpg (set_entry m pt (pt_index virt) (bit_or phys flags)) virt)

unfoldable pub map_walk : Machine → ℕ → ℕ → ℕ → ℕ → Step (Unit {0})
map_walk m pml4 virt phys flags = and_then (enter_table m pml4 (pml4_index virt)) λ pdpt m1.
    and_then (enter_table m1 pdpt (pdpt_index virt))
      λ pd m2. and_then (enter_table m2 pd (pd_index virt)) λ pt m3. map_entry m3 pt virt phys flags

unfoldable pub map_page : Vmm → Machine → ℕ → ℕ → ℕ → Step (Unit {0})
map_page vmm m virt phys flags =
    if not (virt % page_size == 0) || not (phys % page_size == 0)
    then (err invalid_argument, m)
    else map_walk m vmm.pml4_addr virt phys flags

-- The three `get_next_table_addr(..).ok_or(PageNotMapped)?` of `unmap_page` and `update_flags`,
-- then the use of the last table.
unfoldable pub or_not_mapped : {A : Type 0} → Machine → Option ℕ → (ℕ → Step A) → Step A
or_not_mapped m none f = (err page_not_mapped, m)
or_not_mapped m (some t) f = f t

unfoldable pub next_table : {A : Type 0} → Machine → ℕ → ℕ → (ℕ → Step A) → Step A
unfolding or_not_mapped
next_table m table index f = or_not_mapped m (get_next_table_addr m table index) f

unfoldable pub with_entry : {A : Type 0} → Vmm → Machine → ℕ → (ℕ → Step A) → Step A
with_entry vmm m virt f =
    if not (virt % page_size == 0)
    then (err invalid_argument, m)
    else next_table m vmm.pml4_addr (pml4_index virt) λ pdpt.
      next_table m pdpt (pdpt_index virt) λ pd.
        next_table m pd (pd_index virt)
          λ pt. if not (is_present m pt (pt_index virt)) then (err page_not_mapped, m) else f pt

unfoldable pub unmap_page : Vmm → Machine → ℕ → Step ℕ
unmap_page vmm m virt = with_entry vmm m virt λ pt.
    (ok (frame (get_entry m pt (pt_index virt))), invlpg (set_entry m pt (pt_index virt) 0) virt)

unfoldable pub update_flags : Vmm → Machine → ℕ → ℕ → Step (Unit {0})
update_flags vmm m virt flags = with_entry vmm m virt λ pt.
    let entry : ℕ = bit_or (frame (get_entry m pt (pt_index virt))) flags in
    (ok tt, invlpg (set_entry m pt (pt_index virt) entry) virt)

unfoldable pub check_huge_page : Machine → ℕ → ℕ → ℕ → ℕ → Option ℕ
check_huge_page m table index virt shift =
    let entry : ℕ = get_entry m table index in
    if has_flag entry huge_page && has_flag entry present
    then some (frame entry + bit_and virt (2 ^ shift - 1))
    else none

-- `?` on an option, and an early return of one.
abbrev pub try_some : Option ℕ → (ℕ → Option ℕ) → Option ℕ
try_some none f = none
try_some (some a) f = f a

abbrev pub return_some : Option ℕ → Option ℕ → Option ℕ
return_some (some a) o = some a
return_some none o = o

unfoldable pub translate_entry : Machine → ℕ → ℕ → Option ℕ
translate_entry m pt virt =
    if not (is_present m pt (pt_index virt))
    then none
    else some (frame (get_entry m pt (pt_index virt)) + bit_and virt 0xFFF)

unfoldable pub translate : Vmm → Machine → ℕ → Option ℕ
translate vmm m virt = try_some (get_next_table_addr m vmm.pml4_addr (pml4_index virt)) λ pdpt.
    return_some (check_huge_page m pdpt (pdpt_index virt) virt 30) (
      try_some (get_next_table_addr m pdpt (pdpt_index virt)) λ pd.
        return_some (check_huge_page m pd (pd_index virt) virt 21)
          (try_some (get_next_table_addr m pd (pd_index virt)) λ pt. translate_entry m pt virt))

-- The loop of `identity_map`, on fuel; it stops at the first error.
unfoldable pub identity_loop : ℕ → Vmm → Machine → ℕ → ℕ → ℕ → Option (Step (Unit {0}))
identity_loop zero vmm m addr end flags = none
identity_loop (suc fuel) vmm m addr end flags =
    let (result, m') = map_page vmm m addr addr flags in
    let rest = identity_loop fuel vmm m' (add64 addr page_size) end flags in
    if ltb addr end then elim result [ ok _ ↦ rest | err e ↦ some (err e, m') ] else some (ok tt, m)

abbrev pub pages_between : ℕ → ℕ → ℕ
pages_between start end = (end - start) / page_size + 2

-- `start & !(PAGE_SIZE - 1)`
unfoldable pub identity_map : Vmm → Machine → ℕ → ℕ → ℕ → Option (Step (Unit {0}))
identity_map vmm m start end flags =
    let addr : ℕ = bit_and start (complement 64 (page_size - 1)) in
    identity_loop (pages_between addr end) vmm m addr end flags
