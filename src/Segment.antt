-- ===== src/Segment.antt =====
-- Source/SharedMemorySegment.hpp and Source/SharedMemorySegment.cpp: a segment of shared memory, and
-- the segments of the process.
mod Defs
mod Registry
pub mod Mapped
pub mod Current
pub mod Lookup
pub mod Fresh
pub mod WellFormed
pub mod Reachable
unfoldable pub use Defs.*
unfoldable pub use Registry.*
