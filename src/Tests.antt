-- ===== src/Tests.antt =====
-- Runs of the model at concrete inputs, and the theorems at inputs that meet their hypotheses.
mod Lists
mod Tables
mod Locks
mod Chains
mod Members
mod Transfers
mod Frames
mod Joins
mod Sessions
mod Ends
mod Turns
mod Wires
mod Windows
mod Leaves
mod Watches
mod Stores
mod Starts
