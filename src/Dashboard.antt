-- ===== src/Dashboard.antt =====
-- cmd/vortex-dashboard/main.go: what the dashboard makes of the nodes.
pub mod Strings
pub mod Metric
pub mod Trimmed
pub mod Numbers
pub mod Reading
pub mod Info
pub mod Polled
