-- ===== src/Tests.antt =====
-- Tests: an engine that meets the laws of the parameters, and the theorems at concrete inputs.
mod Toy
mod Errors
mod Sessions
mod Families
mod Batches
mod Counts
mod Cursors
mod Walks
mod Callbacks
mod MultiGets
mod Changes
mod Boxes
mod Choices
mod Openings
