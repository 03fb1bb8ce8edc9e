-- ===== src/Syscall.antt =====
-- src/syscall.rs: the numbers of the system calls and their dispatch. Memory is read by bytes, and
-- what `vga_print_char` is called with is a list; an i64 result is the word it leaves in `rax`.
pub mod Numbers
pub mod Dispatch
use delta_os.Base.{
  ℕ, zero, suc, ◌+◌, ◌-◌, ◌%◌, Bool, ◌||◌, Option, none, some, List, [], ◌∷◌, ◌++◌, if◌then◌else◌,
  ◌==◌,
}
use delta_os.Base.Word.{u64_mod}
use delta_os.Kernel.Result.{
  KernelResult, KernelError, ok, err, out_of_memory, invalid_address, page_not_mapped,
  page_already_mapped, invalid_argument, device_not_found, file_system_not_found, file_not_found,
  io_error, module_not_found, access_denied, general_fault,
}

pub data SyscallNumber : Type 0 where
  read write open_file close seek stat mkdir unlink getdents mount umount : SyscallNumber
  clone exit waitpid getpid yield_cpu mmap munmap print readline sysinfo : SyscallNumber

-- The discriminants.
unfoldable pub number : SyscallNumber → ℕ
number read = 0
number write = 1
number open_file = 2
number close = 3
number seek = 4
number stat = 5
number mkdir = 6
number unlink = 7
number getdents = 8
number mount = 10
number umount = 11
number clone = 20
number exit = 21
number waitpid = 22
number getpid = 23
number yield_cpu = 24
number mmap = 30
number munmap = 31
number print = 100
number readline = 101
number sysinfo = 200

-- `SyscallNumber::from`
unfoldable pub from : ℕ → SyscallNumber
from v =
    if v == 0
    then read
    else if v == 1
    then write
    else if v == 2
    then open_file
    else if v == 3
    then close
    else if v == 4
    then seek
    else if v == 5
    then stat
    else if v == 6
    then mkdir
    else if v == 7
    then unlink
    else if v == 8
    then getdents
    else if v == 10
    then mount
    else if v == 11
    then umount
    else if v == 20
    then clone
    else if v == 21
    then exit
    else if v == 22
    then waitpid
    else if v == 23
    then getpid
    else if v == 24
    then yield_cpu
    else if v == 30
    then mmap
    else if v == 31
    then munmap
    else if v == 100
    then print
    else if v == 101
    then readline
    else if v == 200
    then sysinfo
    else read

-- `isize::from`, as the amount below zero.
unfoldable pub errno : KernelError → ℕ
errno out_of_memory = 12
errno invalid_address = 14
errno page_not_mapped = 2
errno page_already_mapped = 17
errno invalid_argument = 22
errno device_not_found = 19
errno file_system_not_found = 19
errno file_not_found = 2
errno io_error = 5
errno module_not_found = 2
errno access_denied = 13
errno general_fault = 1

-- The bytes of a buffer.
unfoldable pub bytes : (ℕ → ℕ) → ℕ → ℕ → List ℕ
bytes mem addr zero = []
bytes mem addr (suc count) = mem addr ∷ bytes mem (addr + 1) count

-- A call's result and the screen after it; none where the call does not return.
abbrev pub Served : Type 0
Served = Option (KernelResult ℕ × List ℕ)

unfoldable pub sys_write : (ℕ → ℕ) → List ℕ → ℕ → ℕ → ℕ → Served
sys_write mem screen fd buffer count =
    if (fd == 1) || (fd == 2)
    then some (ok count, screen ++ bytes mem buffer count)
    else some (err io_error, screen)

unfoldable pub sys_print : (ℕ → ℕ) → List ℕ → ℕ → ℕ → Served
sys_print mem screen buffer count = some (ok count, screen ++ bytes mem buffer count)

unfoldable pub serve : (ℕ → ℕ) → List ℕ → SyscallNumber → ℕ → ℕ → ℕ → Served
unfolding sys_write sys_print
serve mem screen write arg1 arg2 arg3 = sys_write mem screen arg1 arg2 arg3
serve mem screen print arg1 arg2 arg3 = sys_print mem screen arg1 arg2
serve mem screen getpid arg1 arg2 arg3 = some (ok 1, screen)
serve mem screen yield_cpu arg1 arg2 arg3 = some (ok 0, screen)
serve mem screen close arg1 arg2 arg3 = some (ok 0, screen)
serve mem screen munmap arg1 arg2 arg3 = some (ok 0, screen)
serve mem screen exit arg1 arg2 arg3 = none
serve mem screen _ arg1 arg2 arg3 = some (err io_error, screen)

-- `val as i64` and the negative number of an error, both as the 64-bit word.
unfoldable pub result_word : KernelResult ℕ → ℕ
unfolding errno
result_word (ok v) = v % u64_mod
result_word (err e) = u64_mod - errno e

unfoldable pub finish : Served → Option (ℕ × List ℕ)
finish none = none
finish (some (result, screen)) = some (result_word result, screen)

unfoldable pub rust_syscall_handler : (ℕ → ℕ) → List ℕ → ℕ → ℕ → ℕ → ℕ → Option (ℕ × List ℕ)
unfolding finish serve from
rust_syscall_handler mem screen nr arg1 arg2 arg3 =
    finish (serve mem screen (from nr) arg1 arg2 arg3)
