-- ===== src/Index.antt =====
-- src/memstem/core/index.py: the SQLite index, table by table.
pub mod Result
pub mod Queue
pub mod Store
pub mod Vectors
