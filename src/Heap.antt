-- ===== src/Heap.antt =====
-- src/memory/heap.rs: the kernel heap, slab classes over a bump area. Addresses are numbers, 0 is the
-- null pointer, and the clearing of new pages is not modelled. The sums stay below 2 ^ 64 for the
-- heap of 2 MB at HEAP_BASE.
pub mod Classes
pub mod Slabs
use Prim.Native.Nat.{bit_and}
use delta_os.Base.{
  ℕ, zero, suc, ◌+◌, ◌-◌, ◌*◌, ◌/◌, Bool, true, false, not, ◌||◌, Option, none, some, List, [], ◌∷◌,
  if◌then◌else◌, ltb, leb, ◌==◌, get_or, set, replicate, map, min,
}
use delta_os.Base.Bits.{shl_one, complement}

abbrev pub slab_min_size : ℕ
slab_min_size = 8

abbrev pub slab_max_size : ℕ
slab_max_size = 4096

abbrev pub slab_classes : ℕ
slab_classes = 10

abbrev pub max_blocks_per_class : ℕ
max_blocks_per_class = 1024

pub record SlabClass : Type 0 where
  pub block_size : ℕ
  pub free_list : List ℕ
  pub free_count : ℕ
  pub total_count : ℕ
  pub next_page : ℕ

pub record SlabAllocator : Type 0 where
  pub heap_start : ℕ
  pub heap_size : ℕ
  pub bump_offset : ℕ
  pub slabs : List SlabClass

-- `SlabClass::new`
abbrev pub new_class : ℕ → SlabClass
new_class block_size = record {
  block_size = block_size;
  free_list = replicate max_blocks_per_class 0;
  free_count = 0;
  total_count = 0;
  next_page = 0;
}

-- `SLAB_MIN_SIZE << idx`
unfoldable pub class_size : ℕ → ℕ
unfolding shl_one
class_size idx = slab_min_size * shl_one idx

-- The classes from `idx` on.
abbrev pub make_slabs : ℕ → ℕ → List SlabClass
make_slabs zero idx = []
make_slabs (suc n) idx = new_class (class_size idx) ∷ make_slabs n (suc idx)

-- `SlabAllocator::new`
abbrev pub new : SlabAllocator
new = record { heap_start = 0; heap_size = 0; bump_offset = 0; slabs = make_slabs slab_classes 0 }

-- `n` blocks of a page, from block `j` on, join the free list at index `at`.
unfoldable pub add_blocks : ℕ → ℕ → ℕ → ℕ → ℕ → List ℕ → List ℕ
add_blocks page size zero j at list = list
add_blocks page size (suc n) j at list =
    add_blocks page size n (suc j) (suc at) (set list at (page + j * size))

-- One round of the loop of `init`.
unfoldable pub init_class : ℕ → SlabClass → SlabClass
unfolding add_blocks
init_class page c =
    let blocks : ℕ = min (4096 / c.block_size) max_blocks_per_class in
    record c {
      free_list = add_blocks page c.block_size blocks 0 0 c.free_list;
      free_count = blocks;
      total_count = blocks;
      next_page = page;
    }

unfoldable pub init_classes : ℕ → List SlabClass → List SlabClass
unfolding init_class
init_classes page [] = []
init_classes page (c ∷ cs) = init_class page c ∷ init_classes (page + 4096) cs

-- `SlabAllocator::init`, on a heap that is not initialised: later calls return at once.
unfoldable pub init : SlabAllocator → ℕ → ℕ → SlabAllocator
unfolding init_classes
init a start size = record {
  heap_start = start;
  heap_size = size;
  bump_offset = slab_classes * 4096;
  slabs = init_classes start a.slabs;
}

-- The loop of `find_slab_class`, over `n` classes from `i` on.
unfoldable pub find_class : ℕ → ℕ → ℕ → Option ℕ
find_class size zero i = none
find_class size (suc n) i =
    let rest = find_class size n (suc i) in if leb size (class_size i) then some i else rest

unfoldable pub find_slab_class : ℕ → Option ℕ
find_slab_class size =
    if ltb slab_max_size size || (size == 0) then none else find_class size slab_classes 0

abbrev pub slab_at : SlabAllocator → ℕ → SlabClass
slab_at a idx = get_or a.slabs idx (new_class 0)

abbrev pub put_slab : SlabAllocator → ℕ → SlabClass → SlabAllocator
put_slab a idx c = record a { slabs = set a.slabs idx c }

-- The last entry of the free list is taken, if there is one.
unfoldable pub pop_block : SlabAllocator → ℕ → SlabClass → ℕ × SlabAllocator
pop_block a idx c =
    if ltb 0 c.free_count
    then (
      get_or c.free_list (c.free_count - 1) 0,
      put_slab a idx (record c { free_count = c.free_count - 1 }),
    )
    else (0, put_slab a idx c)

-- A page from the bump area is cut into blocks, as many as the class may still have.
unfoldable pub refill : SlabAllocator → SlabClass → SlabClass
refill a c =
    let blocks : ℕ = min (4096 / c.block_size) (max_blocks_per_class - c.total_count) in
    record c {
      free_list =
          add_blocks (a.heap_start + a.bump_offset) c.block_size blocks 0 c.free_count c.free_list;
      free_count = c.free_count + blocks;
      total_count = c.total_count + blocks;
    }

unfoldable pub alloc_from_slab : SlabAllocator → ℕ → ℕ × SlabAllocator
unfolding pop_block refill
alloc_from_slab a idx =
    let c = slab_at a idx in
    if ltb 0 c.free_count
    then pop_block a idx c
    else if ltb a.heap_size (a.bump_offset + 4096)
    then (0, a)
    else pop_block (record a { bump_offset = a.bump_offset + 4096 }) idx (refill a c)

unfoldable pub alloc_bump : SlabAllocator → ℕ → ℕ → ℕ × SlabAllocator
alloc_bump a size align =
    let aligned_offset : ℕ = bit_and (a.bump_offset + align - 1) (complement 64 (align - 1)) in
    if ltb a.heap_size (aligned_offset + size)
    then (0, a)
    else (a.heap_start + aligned_offset, record a { bump_offset = aligned_offset + size })

unfoldable pub free_to_slab : SlabAllocator → ℕ → ℕ → SlabAllocator
free_to_slab a ptr idx =
    let c = slab_at a idx in
    if ltb c.free_count max_blocks_per_class
    then put_slab a idx
        (record c { free_list = set c.free_list c.free_count ptr; free_count = c.free_count + 1 })
    else a

abbrev pub aligned_size : ℕ → ℕ → ℕ
aligned_size size align = if ltb size align then align else size

unfoldable pub alloc_class : SlabAllocator → ℕ → ℕ → Option ℕ → ℕ × SlabAllocator
unfolding alloc_from_slab alloc_bump
alloc_class a size align none = alloc_bump a size align
alloc_class a size align (some idx) =
    if leb align (slab_at a idx).block_size then alloc_from_slab a idx else alloc_bump a size align

-- `GlobalAlloc::alloc`
unfoldable pub alloc : SlabAllocator → ℕ → ℕ → ℕ × SlabAllocator
unfolding alloc_class find_slab_class
alloc a size align =
    alloc_class a (aligned_size size align) align (find_slab_class (aligned_size size align))

unfoldable pub dealloc_class : SlabAllocator → ℕ → Option ℕ → SlabAllocator
unfolding free_to_slab
dealloc_class a ptr none = a
dealloc_class a ptr (some idx) = free_to_slab a ptr idx

-- `GlobalAlloc::dealloc`
unfoldable pub dealloc : SlabAllocator → ℕ → ℕ → ℕ → SlabAllocator
unfolding dealloc_class find_slab_class
dealloc a ptr size align = dealloc_class a ptr (find_slab_class (aligned_size size align))
