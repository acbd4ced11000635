-- ===== src/Tests.antt =====
-- Runs of the definitions, and of the theorems, at concrete inputs.
mod Packages
mod Comparisons
mod Uploads
mod Upgrades
mod Streams
mod Access
mod Schemas
mod Values
mod Turns
mod Fetched
mod Grouped
