-- ===== src/Memory.antt =====
-- The memory layer of app/memory.
pub mod Authority
pub mod Extraction
pub mod Controller
pub mod Merging
