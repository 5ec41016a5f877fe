-- ===== src/Node.antt =====
-- nodes/: the list node and its version word.
pub mod Word
