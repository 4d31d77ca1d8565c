-- ===== src/Bus.antt =====
-- src/gpu/shared_frame_bus.cpp: frames that one process publishes and others read, through slots
-- in shared memory.
pub mod Metadata
pub mod Rects
pub mod SideData
pub mod MoveResult
pub mod CursorShape
pub mod Control
pub mod Publisher
pub mod Consumer
pub mod History
pub mod Log
mod Tests
