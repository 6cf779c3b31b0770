-- ===== src/Examples.antt =====
-- The theorems at concrete inputs.
mod Documents
mod Buckets
mod Commits
mod Folds
mod Sweeps
mod Queries
mod Retries
