-- ===== src/Examples.antt =====
-- The modelled code run on concrete data.
mod Stores
mod Reads
mod Parts
mod Processes
mod Capabilities
mod Drivers
mod Leaders
mod Reconcile
mod Updates
mod Epochs
