-- ===== src/Tests.antt =====
-- Runs of the model on concrete inputs: the firehoses and the manager, the sinks.
mod Watchers
mod Manager
mod Sinks
mod Services
mod Whole
mod Reads
mod Batches
mod Interface
mod Processes
mod Crashes
mod Fleet
mod Shutdown
