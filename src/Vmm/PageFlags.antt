-- ===== src/Vmm/PageFlags.antt =====
-- src/memory/vmm.rs: `PageFlags`, as its bits.
use Prim.Native.Nat.{bit_or}
use delta_os.Base.{ℕ}
use delta_os.Base.Bits.{shl_one}

abbrev pub present : ℕ
present = shl_one 0

abbrev pub writable : ℕ
writable = shl_one 1

abbrev pub user_accessible : ℕ
user_accessible = shl_one 2

abbrev pub write_through : ℕ
write_through = shl_one 3

abbrev pub no_cache : ℕ
no_cache = shl_one 4

abbrev pub accessed : ℕ
accessed = shl_one 5

abbrev pub dirty : ℕ
dirty = shl_one 6

abbrev pub huge_page : ℕ
huge_page = shl_one 7

abbrev pub global : ℕ
global = shl_one 8

abbrev pub no_execute : ℕ
no_execute = shl_one 63

-- `PageFlags::default`
abbrev pub default : ℕ
default = bit_or present writable
