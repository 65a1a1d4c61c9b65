-- ===== src/Tests.antt =====
-- The theorems of the other modules at concrete inputs.
mod Data
mod Maps
mod Deletions
mod Buckets
mod Wire
mod Index
mod Saved
mod Clients
mod Process
mod Listings
mod Replays
mod Races
mod Endings
