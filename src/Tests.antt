-- ===== src/Tests.antt =====
-- Inputs at which the theorems apply.
mod Acks
mod Channel
mod Config
mod Device
mod Engine
mod Fsm
mod Names
mod Plugins
mod Regions
mod Shmem
mod Socket
mod Zmq
mod Monitor
mod Parser
mod Lifetime
mod Loading
mod StateQueue
mod Tools
