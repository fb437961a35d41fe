-- ===== src/Server.antt =====
-- The server: its calls, connections and the stages of its pipeline.
pub mod Call
pub mod Connection
pub mod State
pub mod Responder
pub mod Handler
pub mod Listener
pub mod Cycle
pub mod Service
pub mod Lifecycle
mod Tests
