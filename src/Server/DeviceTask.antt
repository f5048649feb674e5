-- ===== src/Server/DeviceTask.antt =====
-- odyssey_hub_server/src/device_tasks.rs, `device_handler_task`: the task of one device, which has
-- a link for control (USB), a link for events (USB or the BLE dongle) or both.
pub mod State
pub mod Name
pub mod Streams
pub mod Requests
pub mod Links
pub mod Loop
pub mod Told
pub mod TurnTold
pub mod Listed
pub mod Tests
pub mod Replies
pub mod Pauses
pub mod Unplugged
pub mod Ends
pub mod TurnSound
pub mod Invariant
pub mod DeviceBits
pub mod LoopSteps
