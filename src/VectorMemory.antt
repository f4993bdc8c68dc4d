-- ===== src/VectorMemory.antt =====
-- app/vector_memory: the store of embedded memories, of which the maintenance is modelled.
pub mod Maintenance
