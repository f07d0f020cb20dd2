-- ===== src/Drivers/Network.antt =====
-- src/Drivers/Network: addresses, checksums and the resolution of addresses.
pub mod Common
pub mod Arp
