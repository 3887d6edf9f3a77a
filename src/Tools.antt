-- ===== src/Tools.antt =====
-- fairmq/tools: the semaphore (Semaphore.cxx).
pub mod Semaphore
