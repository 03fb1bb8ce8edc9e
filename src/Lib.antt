-- ===== src/Lib.antt =====
-- Verification library of the DeltaOS kernel.
--
-- The kernel is a Rust crate (src/) over boot assembly (boot/). Timer interrupts drive the
-- scheduler (src/sched/scheduler.rs), which keeps tasks (src/sched/task.rs) in a ready queue and a
-- table; stacks of tasks come from a fixed region, and pages of memory from the physical memory
-- manager (src/memory/pmm.rs). Fallible operations return `KernelResult` (src/lib.rs).
--
-- Base holds the names shared by all files: Boolean tests on numbers (Base.Tests), lists
-- (Base.Lists), machine words (Base.Word) and bits of words (Base.Bits). Kernel.Result models
-- `KernelError` and `KernelResult`.
--
-- Task models src/sched/task.rs: the record Task is the struct (its field `foreground` is `mode`
-- here), Machine holds the statics NEXT_TASK_ID and NEXT_STACK and the memory of stacks, and each
-- method is a function of its name. Task.Signals, Task.Stack and Task.Frame are about signals, the
-- stack region, and the first frame of a task with the pops of timer_isr in
-- src/sched/context_switch.asm.
--
-- Scheduler models src/sched/scheduler.rs. Scheduler.State has the struct, with the tasks that an
-- `Arc<Mutex<Task>>` points to as a function from references, and the four ways a task is created;
-- Scheduler.Run has picking, switching, tick and preempt_schedule; Scheduler.Control has the
-- process control operations (its method `send_signal` is `signal_task`) and Scheduler.Query the
-- queries. Scheduler.Pick, Dispatch, Choice, Rotation, Preempt, Ticks, Effects and Table are about what
-- these do; Scheduler.Invariant and Scheduler.History are about all sequences of calls.
--
-- Pmm models src/memory/pmm.rs: the bitmap is a list of bytes. Pmm.Bitmap, Pmm.Pages and Pmm.Free are
-- about single bits, about allocating a page and about freeing one.
--
-- Heap models src/memory/heap.rs: the slab classes with their free lists, and the bump area;
-- Heap.Classes is about which class serves a size,
-- and Heap.Slabs about a class that has all its blocks.
--
-- Vmm models src/memory/vmm.rs: page tables in a memory of 64-bit words, the walk of map_page,
-- unmap_page, update_flags, translate and identity_map (on fuel for one round more than there are
-- pages). Vmm.Lookup has a recursion on levels that translate is compared with, Vmm.Tree the layout
-- that keeps tables apart, Vmm.Reached, Vmm.Added, Vmm.Entered, Vmm.Leaf and Vmm.Mapping the steps of
-- a mapping, Vmm.Pages and Vmm.Identity what the operations do to the translation.
--
-- Vfs models src/fs/vfs.rs, with Vfs.Path for text as bytes and Vfs.Types for the data types and the
-- traits, which are records of functions that the definitions take. Vfs.Mounts, Vfs.Walks and Vfs.Files
-- are about the mount point of a path, the walk along it, and the table of open files.
--
-- Module models src/module/manager.rs: the table of modules and that of symbols. Module.Life is about
-- what single calls keep, Module.Calls about all sequences of calls. Both Vfs and Module stand on the
-- ordered maps of Base.Map, which is Rust's BTreeMap.
--
-- Ntfs models src/fs/ntfs.rs: Ntfs.Bytes and Ntfs.Runs the reads of words and of run lists, Ntfs.Mft the
-- records, Ntfs.Volume the inodes and the volume behind the traits of Vfs. The loops over a record's
-- attributes and over a run list are on fuel, as many rounds as there are bytes (Ntfs.Parsing).
-- Ntfs.RunLists has a reference encoder and Ntfs.RoundTrip the round trip; Ntfs.Journal is about what
-- the journal keeps.
--
-- Acpi models src/acpi/mod.rs on a memory of bytes, with Acpi.Tables for the search and the records. The
-- loop over a table's entries is on fuel, one round more than the table's length (Acpi.Bounds).
--
-- Console models the text screen of src/lib.rs (vga_print and its kin) with the serial line, and
-- parse_int (Console.Screen, Console.Numbers); Console.Line has the line editor of `shell`, whose keys are those keyboard_read_char returns.
-- Shell has execute_command with the commands that act on the scheduler and on the developer mode, what
-- they print being messages; Shell.Lines says how a line is read, Shell.Spares what a command may do to
-- the tasks. The commands that only print reports or write to devices are noted with their arguments
-- and not modelled further, nor are the start-up in kernel_main and the port instructions.
--
-- Apic models src/apic/mod.rs on a bus, a parameter: memory-mapped registers, ports, and the state in
-- which the wait for the PIT ends. Apic.Registers has the offsets and flags, Apic.Entries what is
-- assumed of an IO APIC, and Apic.Redirects the redirection entries that init leaves.
--
-- Interrupts reach the handlers of src/interrupts.rs through the table of src/arch/idt.rs and the
-- stubs of boot/long_mode.asm. Idt models the table, with its gates in Idt.Gates. Interrupts models
-- rust_isr_handler and rust_timer_handler on the parts of the kernel that they touch, and Interrupts.Eoi
-- is about how they end. They call on Keyboard (the ring buffer and the scancodes of
-- src/interrupts.rs; Keyboard.Ring, Keyboard.Scancode and Keyboard.Typing), Timer (src/timer/mod.rs;
-- Timer.Uptime), Scheduler, and Syscall (src/syscall.rs; Syscall.Numbers and Syscall.Dispatch).
--
-- Tests has concrete systems and the theorems applied to them.
--
-- Bounds. Counters, ids and the sums of alloc_stack are u64 words whose additions wrap, as in a
-- release build. Addresses and
-- page counts are natural numbers: the code's sums of them stay below 2 ^ 64 for memory of at most
-- 64 GB. Loops are structural recursion
-- on a list or a count, or recursion on fuel that a theorem shows to be enough.
--
-- Not modelled: the boot assembly, the GDT, the C drivers and the user programs, device I/O but that of
-- the APICs, the contents of pages, the text of what is printed, and more than one processor.
-- The kernel runs on one processor with the scheduler behind `&mut`, so no lock is contended. A
-- context switch is the save and load of registers; the model goes on with the caller's next
-- statement, as the code does when the outgoing task is resumed.
pub mod Base
pub mod Kernel
pub mod Task
pub mod Scheduler
pub mod Pmm
pub mod Acpi
pub mod Apic
pub mod Console
pub mod Heap
pub mod Idt
pub mod Interrupts
pub mod Keyboard
pub mod Module
pub mod Ntfs
pub mod Shell
pub mod Syscall
pub mod Timer
pub mod Vfs
pub mod Vmm
pub mod Tests
