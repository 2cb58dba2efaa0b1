-- ===== src/Command.antt =====
-- The packages under command/: one firehose for each kind of Nomad resource.
pub mod Nomad
pub mod Watch
pub mod Publish
pub mod Reads
pub mod AnySink
pub mod Cluster
pub mod Fleet
pub mod Shutdown
pub mod Crash
pub mod Terms
pub mod Nodes
pub mod Deployments
pub mod Jobs
pub mod Evaluations
pub mod Allocations
pub mod Restart
pub mod Delivery
pub mod Lifecycle
pub mod Persist
pub mod Made
pub mod EndToEnd
