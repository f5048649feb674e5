-- ===== src/Interface.antt =====
-- The crate odyssey_hub_server_interface: the wire types and the conversions to and from them.
pub mod Proto
pub mod Devices
pub mod Events
pub mod Accessories
