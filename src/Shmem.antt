-- ===== src/Shmem.antt =====
-- fairmq/shmem: the transport over shared memory.
pub mod Store
pub mod Message
pub mod Regions
pub mod Header
pub mod Acks
pub mod Allocate
pub mod Socket
pub mod Monitor
pub mod Lifetime
