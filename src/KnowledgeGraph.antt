-- ===== src/KnowledgeGraph.antt =====
-- app/knowledge_graph: the structured knowledge of the platform.
pub mod GraphStore
pub mod Trust
