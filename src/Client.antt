-- ===== src/Client.antt =====
-- The crate odyssey_hub_client.
pub mod TrackingHistory
