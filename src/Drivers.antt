-- ===== src/Drivers.antt =====
-- src/Drivers: the disk, the file system on it, and the network.
pub mod LittleEndian
pub mod Disk
pub mod Fat32
pub mod Network
