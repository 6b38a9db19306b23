-- ===== src/Server.antt =====
-- internal/server: what the commands of a client do.
pub mod Args
pub mod Handler
pub mod Dispatch
pub mod Registration
pub mod Safety
pub mod SetGet
pub mod Lifetimes
pub mod Conn
pub mod Pipeline
pub mod Closing
pub mod Lifecycle
pub mod Shutdown
pub mod Waiting
