-- ===== src/Changeset.antt =====
-- The package changeset: its data model, binary reader and writer, inversion and concatenation.
pub mod Types
pub mod Effect
pub mod Merge
pub mod Reader
pub mod Writer
pub mod Stream
pub mod Concat
pub mod Invert
