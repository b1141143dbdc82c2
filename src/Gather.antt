-- ===== src/Gather.antt =====
-- Candidate gathering: src/candidate_gathering/candidate_gathering.c.
pub mod Selection
pub mod Tree
pub mod Pruning
pub mod Branching
pub mod Resolving
