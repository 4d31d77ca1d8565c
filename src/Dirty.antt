-- ===== src/Dirty.antt =====
-- src/dirty_tracker.hpp and src/dirty_tracker.cpp: the tracker that compares the tiles of two frames.
pub mod Tracker
pub mod Analyze
pub mod Rects
pub mod Row
pub mod Scan
pub mod Frame
pub mod Tables
pub mod Exact
mod Tests
