-- ===== src/Common.antt =====
-- The crate odyssey_hub_common: the values that the server and its clients exchange.
pub mod Device
pub mod Events
pub mod HexKeyMap
pub mod Config
pub mod Accessory
