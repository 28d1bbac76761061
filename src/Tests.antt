-- ===== src/Tests.antt =====
-- The theorems at concrete inputs.
mod Data
mod Lists
mod Pools
mod Logs
mod Starts
mod Objects
mod Ends
mod Lives
mod Machines
mod Patches
mod Metas
mod Sweeps
mod Openings
mod Changes
mod Listings
