-- ===== src/Policy.antt =====
-- src/gpu/desktop_duplication_policy.hpp: the decisions of a duplication session.
pub mod Decisions
pub mod Backoff
mod Tests
