-- ===== src/Server/Firmware.antt =====
-- odyssey_hub_server/src/firmware.rs: which firmware a device gets, and how it is flashed.
pub mod Manifest
pub mod Progress
pub mod Usb
