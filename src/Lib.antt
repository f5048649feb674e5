-- ===== src/Lib.antt =====
-- Odyssey Hub: the service between Odyssey controllers (USB, or through a BLE dongle) and the
-- applications that read their tracking data.
--
-- The parts and how they interact. Device tasks (odyssey_hub_server/src/device_tasks.rs) talk to the
-- hardware and send `Message`s to the hub (odyssey_hub_server/src/lib.rs), which keeps the lists of
-- devices and dongles and broadcasts changes and events. The accessory manager
-- (odyssey_hub_server/src/accessories.rs) scans for Bluetooth accessories and turns their shots into
-- impact events of the hub's devices. The RPC service, the clients and the bindings read the lists
-- and events through the wire types of odyssey_hub_server_interface. The shared types are in
-- odyssey_hub_common.
--
-- Files, by the code they model:
--   Prelude      lists, text, maps and Rust's panics and results over native numbers.
--   Common       odyssey_hub_common/src. Device: device.rs (`name_str` is `Device::name`), Events:
--                events.rs, HexKeyMap: hexkeymap.rs, Accessory: accessory.rs, Config: config.rs.
--   Client       odyssey_hub_client/src. TrackingHistory: tracking_history.rs.
--   Interface    odyssey_hub_server_interface. Proto: the types generated from
--                proto/service_interface.proto; Devices, Events, Accessories: the conversions of
--                src/lib.rs, where `x_to_proto` and `x_from_proto` are the two `From` (or `TryFrom`).
--   Server       odyssey_hub_server/src. Hub: the message forwarding of `run_server` in lib.rs, with
--                `Message` and `DongleInfo` of device_tasks.rs. Keyed: the searches of the lists by
--                key that lib.rs writes with iterators. Accessories: the two events of the loop of
--                `accessory_manager` in accessories.rs, and its notifications. Firmware: firmware.rs,
--                with the choice of a firmware in Manifest, `ProgressReader` in Progress and the search
--                for a device in Usb. Service, ShotDelays, AccessoryMap: the RPCs of server.rs, where
--                `x_rpc` is the method `x`; ShotDelays.Persisted has the ones that use the file.
--                DeviceTask: `device_handler_task` of device_tasks.rs: its state and what it does (State),
--                its streams (Streams), the messages of the service
--                (Requests), the links that come and go (Links) and the loop of `select!` (Loop),
--                where `turn` is one pass and `Answers` is what the links answer during it.
--                UsbScan: `usb_device_manager`: what a device tells of itself (Probe), the pass over
--                the enumeration (Scan) and its end (Reconcile). StreamEvents: `handle_stream_event`.
--                Startup: what `run_server` announces of the configuration files.
--
-- Conventions. A `&str` and a `[u8; N]` are lists of bytes. An integer is a natural number; where
-- the code's arithmetic or a cast wraps, the modulus is written out. A function that may panic
-- returns an `Outcome`, and one that returns `Result` or `Option` does so here. A `HashMap` is an
-- association list whose order stands for the iteration order. `f32`, the protocol's packets, their
-- codec, the Bluetooth peripherals, the USB devices, tokio's watch channels, the vision libraries,
-- the file system, the JSON5 codec and what a task answers are parameters. No definition takes fuel:
-- loops are recursion on what they iterate over, and the loop of a device task on the list of what
-- wakes it up; its timers are such wake-ups, which the list may hold at any place where their guard
-- is met. One message is handled while the lock on its list is held, so the hub is a function of the
-- sequence of messages.
--
-- Not modelled: the manager of a dongle (its snapshots and bonds), the offset that is computed from a
-- tracking event, the update sequence of a firmware, the rest of the process start-up, logging,
-- the network transports, the bindings and the user interface.
pub mod Client
pub mod Common
pub mod Interface
pub mod Prelude
pub mod Server
