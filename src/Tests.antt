-- ===== src/Tests.antt =====
-- The theorems at concrete inputs.
mod LruTests
mod ShardTests
mod StoreTests
mod RespTests
mod ServerTests
mod ReplicationTests
mod ConnTests
mod LifecycleTests
mod NodeTests
mod DashboardTests
mod CommandTests
