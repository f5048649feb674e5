-- ===== src/Server/StreamEvents.antt =====
-- odyssey_hub_server/src/device_tasks.rs, `handle_stream_event`: what a report of a sensor stream
-- does to the filters of a device task, and the events that it sends.
pub mod Reports
pub mod Poses
pub mod Handle
pub mod Elapsed
pub mod Tests
