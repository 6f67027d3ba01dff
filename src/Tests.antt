-- ===== src/Tests.antt =====
-- The theorems at concrete data, and runs of the programs.
mod Machines
mod Runs
mod Stores
mod Chains
mod Lists
mod Rows
mod Parts
mod Batches
mod Files
mod Settings
mod Hosting
mod Pools
mod Turns
mod Steps
