-- ===== src/Tests.antt =====
-- Runs on concrete inputs, and each theorem at an input that meets its hypotheses.
mod Queue
mod Store
mod Vectors
mod Worker
mod Search
mod Mmr
mod Embeddings
mod Pipeline
mod Hygiene
mod Retrieve
mod Leg
mod Importance
mod QueryLog
mod Loop
mod Frontmatter
mod Skipped
mod Expired
mod Filter
