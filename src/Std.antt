-- ===== src/Std.antt =====
-- src/libs: the standard library of the kernel.
pub mod RingBuffer
pub mod CString
pub mod Vector
pub mod Memory
