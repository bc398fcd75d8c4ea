-- ===== src/Scenarios.antt =====
-- Runs of the development's theorems at concrete inputs, one file for each part of the program.
mod Cells
mod Results
mod Plans
mod Evictions
mod Hubs
mod Leases
mod Disposals
mod Keys
mod Buses
mod Coordinators
mod Refreshes
mod Transitions
mod Channels
