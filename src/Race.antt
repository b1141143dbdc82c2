-- ===== src/Race.antt =====
-- Candidate racing: src/candidate_gathering/candidate_racing.c and candidate_racing.h.
pub mod State
pub mod Endpoints
pub mod Handlers
pub mod Start
pub mod Counting
pub mod Conclusion
pub mod Cancel
pub mod Invariant
pub mod Callbacks
pub mod Launch
pub mod Initiate
pub mod Next
pub mod Events
pub mod Outcome
pub mod Ending
pub mod Addresses
