-- ===== src/Services.antt =====
-- kernel/src/services: the servers that tasks reach by messages, as far as they compute.
pub mod MemFs
pub mod Vfs
pub mod Registry
mod Tests
