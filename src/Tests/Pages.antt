-- ===== src/Tests/Pages.antt =====
-- src/memory/pmm.rs: the allocator's theorems on eight pages.
use delta_os.Base.{ℕ, ◌<◌, ◌≡◌, ◌≢◌, ◌%◌, refl, ◌⊎◌}
use delta_os.Base.Bits.{bit, shl_one}
use delta_os.Kernel.Result.{
  ok, err, out_of_memory, invalid_address, invalid_argument, page_not_mapped,
}
use delta_os.Pmm.{page_addr, get_bit, first_free, alloc_found, alloc_page, free_page}
use delta_os.Pmm.Pages.{IsPmm, IsFree, IsTaken, Took, alloc_page_lem}
use delta_os.Pmm.Free.{InRange, Freed, index_of, free_page_lem, free_page-alloc_page}
use delta_os.Tests.Samples.{eight, eight-IsPmm}

alloc_page_lem_example :
    (((j : ℕ) → j < 8 → IsTaken eight j) × (alloc_page eight ≡ (err out_of_memory, eight)))
    ⊎ ((i : ℕ) × ((alloc_page eight).0 ≡ ok (page_addr eight i))
        × Took eight (alloc_page eight).1 i
        × ((j : ℕ) → j < i → IsTaken eight j))
alloc_page_lem_example = alloc_page_lem eight eight-IsPmm

-- The second page is the first that is free.
alloc_page-eight : (alloc_page eight).0 ≡ ok 0x101000
unfolding alloc_page alloc_found first_free get_bit bit shl_one
alloc_page-eight = refl

free_page_lem_example :
    ((¬ InRange eight 0x102000) × (free_page eight 0x102000 ≡ (err invalid_address, eight)))
    ⊎ (InRange eight 0x102000
        × (0x102000 % 4096 ≢ 0)
        × (free_page eight 0x102000 ≡ (err invalid_argument, eight)))
    ⊎ ((page_addr eight (index_of eight 0x102000) ≡ 0x102000)
        × IsFree eight (index_of eight 0x102000)
        × (free_page eight 0x102000 ≡ (err page_not_mapped, eight)))
    ⊎ ((page_addr eight (index_of eight 0x102000) ≡ 0x102000)
        × ((free_page eight 0x102000).0 ≡ ok tt)
        × Freed eight (free_page eight 0x102000).1 (index_of eight 0x102000))
free_page_lem_example = free_page_lem eight 0x102000 eight-IsPmm

free_page-alloc_page_example :
    let (result, m') = free_page (alloc_page eight).1 0x101000 in
    (result ≡ ok tt)
    × ((j : ℕ) → get_bit m'.bitmap j ≡ get_bit eight.bitmap j)
    × (m'.free_page_count ≡ 6)
    × IsPmm m'
free_page-alloc_page_example = free_page-alloc_page eight 0x101000 eight-IsPmm alloc_page-eight
