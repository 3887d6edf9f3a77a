-- ===== src/Device.antt =====
-- fairmq/Device.cxx: the device.
pub mod Attach
pub mod Connect
pub mod Init
