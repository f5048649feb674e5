-- ===== src/Server.antt =====
-- The crate odyssey_hub_server: the hub that owns the devices and serves the clients.
pub mod Startup
pub mod Keyed
pub mod Hub
pub mod Firmware
pub mod Accessories
pub mod ShotDelays
pub mod DeviceTask
pub mod UsbScan
pub mod StreamEvents
pub mod Service
pub mod AccessoryMap
