-- ===== src/Tests.antt =====
-- Runs of the model on a small shop, and the theorems at concrete inputs.
mod Shop
mod Runs
mod Repeats
mod Doors
mod Sound
mod Views
mod Gateways
mod Endings
mod Backfills
