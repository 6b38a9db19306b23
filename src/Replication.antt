-- ===== src/Replication.antt =====
-- internal/replication: the commands that a master sends, and what a replica makes of them.
pub mod Master
pub mod Replica
pub mod Stream
pub mod Failover
pub mod Safety
pub mod Manager
pub mod Sync
pub mod Heartbeat
pub mod Promotion
pub mod Stale
pub mod StaleSync
pub mod Steps
pub mod Monitors
pub mod Conns
pub mod Following
pub mod EndToEnd
