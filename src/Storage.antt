-- ===== src/Storage.antt =====
-- Disk transfers: kernel/src/driver/dma.rs (the pool that devices read and write), ahci.rs (the
-- transfer of sectors) and block.rs (devices as arrays of blocks).
pub mod Dma
pub mod Ahci
pub mod Block
pub mod Tests
