-- ===== src/Kernel.antt =====
-- src/lib.rs: the constants of the memory map and the kernel's error codes.
pub mod Result
