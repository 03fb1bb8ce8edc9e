-- ===== src/Pmm.antt =====
-- src/memory/pmm.rs: the bitmap allocator of physical pages. Memory contents are not modelled: the
-- allocator writes pages only to clear them.
pub mod Bitmap
pub mod Pages
pub mod Free
use Prim.Native.Nat.{bit_and, bit_or}
use delta_os.Base.{
  ℕ, zero, suc, ◌+◌, ◌-◌, ◌*◌, ◌/◌, ◌%◌, Bool, true, false, not, ◌&&◌, ◌||◌, Option, none, some,
  List, [], ◌∷◌, if◌then◌else◌, ltb, leb, ◌==◌, length, get_or, set, replicate,
}
use delta_os.Base.Bits.{bit, shl_one, complement}
use delta_os.Kernel.Result.{
  KernelResult, ok, err, out_of_memory, invalid_address, invalid_argument, page_not_mapped,
}

abbrev pub page_size : ℕ
page_size = 4096

abbrev pub max_pages : ℕ
max_pages = 64 * 1024 * 1024 * 1024 / page_size

abbrev pub bitmap_size : ℕ
bitmap_size = max_pages / 8

abbrev pub bitmap_base : ℕ
bitmap_base = 0x500000

-- The bitmap is a list of bytes.
pub record Pmm : Type 0 where
  pub bitmap : List ℕ
  pub total_pages : ℕ
  pub free_page_count : ℕ
  pub base_addr : ℕ
  pub end_addr : ℕ

-- `(byte >> bit) & 1 == 1`; past the bitmap every page counts as taken.
unfoldable pub get_bit : List ℕ → ℕ → Bool
get_bit bitmap index =
    if leb (length bitmap) (index / 8)
    then true
    else bit (get_or bitmap (index / 8) 0) (index % 8) == 1

-- `byte |= 1 << bit`, inside the bitmap.
unfoldable pub set_bit : List ℕ → ℕ → List ℕ
set_bit bitmap index =
    if ltb (index / 8) (length bitmap)
    then set bitmap (index / 8) (bit_or (get_or bitmap (index / 8) 0) (shl_one (index % 8)))
    else bitmap

-- `byte &= !(1 << bit)`, inside the bitmap.
unfoldable pub clear_bit : List ℕ → ℕ → List ℕ
clear_bit bitmap index =
    if ltb (index / 8) (length bitmap)
    then set bitmap (index / 8)
        (bit_and (get_or bitmap (index / 8) 0) (complement 8 (shl_one (index % 8))))
    else bitmap

-- A page is taken, the count lowered as by `saturating_sub`.
unfoldable pub take_page : Pmm → ℕ → Pmm
take_page m i = record m { bitmap = set_bit m.bitmap i; free_page_count = m.free_page_count - 1 }

-- The loop of `new` over `count` pages from `i` on.
unfoldable pub mark_pages : ℕ → ℕ → Pmm → Pmm
mark_pages zero i m = m
mark_pages (suc count) i m =
    mark_pages count (suc i) (if ltb i m.total_pages then take_page m i else m)

-- `Pmm::new`, for a base at or below the bitmap; the bitmap itself is marked as taken.
unfoldable pub new : ℕ → ℕ → Pmm
unfolding mark_pages take_page
new base memory_size =
    let fresh : Pmm = record {
      bitmap = replicate bitmap_size 0;
      total_pages = memory_size / page_size;
      free_page_count = memory_size / page_size;
      base_addr = base;
      end_addr = base + memory_size;
    } in
    mark_pages ((bitmap_size + page_size - 1) / page_size) ((bitmap_base - base) / page_size) fresh

-- The loop of `alloc_page`: the first of `count` pages from `i` on that is free.
unfoldable pub first_free : List ℕ → ℕ → ℕ → Option ℕ
first_free bitmap zero i = none
first_free bitmap (suc count) i =
    let rest = first_free bitmap count (suc i) in if not (get_bit bitmap i) then some i else rest

abbrev pub page_addr : Pmm → ℕ → ℕ
page_addr m i = m.base_addr + i * page_size

unfoldable pub alloc_found : Pmm → Option ℕ → KernelResult ℕ × Pmm
alloc_found m none = (err out_of_memory, m)
alloc_found m (some i) = (ok (page_addr m i), take_page m i)

unfoldable pub alloc_page : Pmm → KernelResult ℕ × Pmm
alloc_page m =
    if m.free_page_count == 0
    then (err out_of_memory, m)
    else alloc_found m (first_free m.bitmap m.total_pages 0)

-- The loop of `alloc_pages` over `count` pages from `i` on, with `found_start` and `consecutive`.
-- `found_start` is set where it was none, so the `unwrap` cannot fail.
abbrev pub start_or : Option ℕ → ℕ → ℕ
start_or none i = i
start_or (some start) i = start

unfoldable pub find_run : List ℕ → ℕ → ℕ → ℕ → Option ℕ → ℕ → Option ℕ
find_run bitmap wanted zero i found_start consecutive = none
find_run bitmap wanted (suc count) i found_start consecutive =
    let start : ℕ = start_or found_start i in
    let longer = find_run bitmap wanted count (suc i) (some start) (consecutive + 1) in
    let broken = find_run bitmap wanted count (suc i) none 0 in
    if not (get_bit bitmap i)
    then if consecutive + 1 == wanted then some start else longer
    else broken

unfoldable pub set_bits : ℕ → ℕ → List ℕ → List ℕ
set_bits zero i bitmap = bitmap
set_bits (suc count) i bitmap = set_bits count (suc i) (set_bit bitmap i)

unfoldable pub alloc_run : Pmm → ℕ → Option ℕ → KernelResult ℕ × Pmm
alloc_run m count none = (err out_of_memory, m)
alloc_run m count (some start) = (
  ok (page_addr m start),
  record m { bitmap = set_bits count start m.bitmap; free_page_count = m.free_page_count - count },
)

unfoldable pub alloc_pages : Pmm → ℕ → KernelResult ℕ × Pmm
alloc_pages m count =
    if ltb m.free_page_count count
    then (err out_of_memory, m)
    else alloc_run m count (find_run m.bitmap count m.total_pages 0 none 0)

unfoldable pub free_index : Pmm → ℕ → KernelResult (Unit {0}) × Pmm
free_index m i = if not (get_bit m.bitmap i) then (err page_not_mapped, m) else (
  ok tt,
  record m { bitmap = clear_bit m.bitmap i; free_page_count = m.free_page_count + 1 },
)

unfoldable pub free_page : Pmm → ℕ → KernelResult (Unit {0}) × Pmm
free_page m addr =
    if ltb addr m.base_addr || leb m.end_addr addr
    then (err invalid_address, m)
    else if not (addr % page_size == 0)
    then (err invalid_argument, m)
    else free_index m ((addr - m.base_addr) / page_size)

-- The loop stops at the first error, with the pages before it freed.
unfoldable pub free_pages_range : Pmm → ℕ → ℕ → KernelResult (Unit {0}) × Pmm
free_pages_range m addr zero = (ok tt, m)
free_pages_range m addr (suc count) =
    let (result, m') = free_page m addr in
    elim result [ ok _ ↦ free_pages_range m' (addr + page_size) count | err e ↦ (err e, m') ]

-- The loop of `reserve_range`.
unfoldable pub reserve_pages : ℕ → ℕ → Pmm → Pmm
reserve_pages zero i m = m
reserve_pages (suc count) i m =
    reserve_pages count (suc i)
      (if ltb i m.total_pages && not (get_bit m.bitmap i) then take_page m i else m)

unfoldable pub reserve_range : Pmm → ℕ → ℕ → Pmm
reserve_range m start size =
    let start_page : ℕ = (start - m.base_addr) / page_size in
    let end_page : ℕ =
      if ltb m.end_addr (start + size)
      then m.total_pages
      else (start + size - m.base_addr + page_size - 1) / page_size in
    if ltb start m.base_addr then m else reserve_pages (end_page - start_page) start_page m

unfoldable pub used_pages : Pmm → ℕ
used_pages m = m.total_pages - m.free_page_count

unfoldable pub free_memory : Pmm → ℕ
free_memory m = m.free_page_count * page_size

unfoldable pub used_memory : Pmm → ℕ
unfolding used_pages
used_memory m = used_pages m * page_size
