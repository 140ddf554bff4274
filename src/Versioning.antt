-- ===== src/Versioning.antt =====
-- versioning/: documents with a history of versions.
pub mod Tables
pub mod Store
