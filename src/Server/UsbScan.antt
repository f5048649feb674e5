-- ===== src/Server/UsbScan.antt =====
-- odyssey_hub_server/src/device_tasks.rs, `usb_device_manager`: one scan of the USB devices, from
-- their probing to what is told the hub and the device tasks.
pub mod Serial
pub mod Probe
pub mod Scan
pub mod Keeps
pub mod Announced
pub mod Tests
pub mod Identity
pub mod Opened
pub mod Tasks
pub mod Relisted
pub mod Spawned
pub mod Unplugged
pub mod Reconcile
