-- ===== src/Tests.antt =====
-- Runs of the model on concrete inputs, by component.
mod Varints
mod Changes
mod Rebasing
mod Schemas
mod Concats
mod Drivers
mod Diffs
mod Apis
mod Views
mod Catalogs
