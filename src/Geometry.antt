-- ===== src/Geometry.antt =====
-- src/gpu/side_data_geometry.hpp: damage, move and cursor geometry between a source region
-- and the output texture.
pub mod Rect
pub mod Tap
pub mod MoveAxis
pub mod AxisReplay
pub mod Damage
pub mod Coverage
pub mod Support
pub mod Move
pub mod Strips
mod Tests
