-- ===== src/Kernel.antt =====
-- src/kernel: memory and processes.
pub mod Heap
pub mod Vfs
pub mod Process
pub mod Syscall
