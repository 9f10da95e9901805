-- ===== src/Backend.antt =====
-- src/backend: the gateway between the flight controller, the vision process and the browsers.
pub mod Schema
pub mod TelSchema
pub mod VisSchema
pub mod State
pub mod DropLog
pub mod Ingest
pub mod CmdSeq
pub mod Intent
pub mod CmdSchema
pub mod CmdBridge
pub mod WsManager
pub mod RateLimit
pub mod Broadcast
pub mod Datagrams
pub mod VideoHub
pub mod App
