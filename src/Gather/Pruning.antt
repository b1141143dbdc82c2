-- ===== src/Gather/Pruning.antt =====
-- The pruning of the candidate tree: `prune_candidate_tree` in
-- src/candidate_gathering/candidate_gathering.c.
pub mod Filtering
pub mod Unlinking
pub mod Traversal
pub mod Marking
pub mod Compatible
