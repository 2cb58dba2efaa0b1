-- ===== src/Helper.antt =====
-- The package helper/: the manager, and the interface of the firehoses that it runs.
pub mod Runner
pub mod Consul
pub mod Manager
pub mod Process
