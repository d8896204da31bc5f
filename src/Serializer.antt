-- ===== src/Serializer.antt =====
-- Source/WisentSerializer.cpp: the encoder `JsonToWisent` of the second traversal, the callback that
-- counts in the first, and the functions `load`, `unload` and `free` over the shared memory.
mod JsonToWisent
mod FirstPass
pub mod Tree
pub mod Layers
pub mod Stored
pub mod TypeRuns
pub mod Open
pub mod Start
pub mod End
pub mod Build
pub mod Translate
pub mod Table
pub mod Strings
pub mod Keys
pub mod Events
pub mod Encode
pub mod Counting
pub mod Load
pub mod Arguments
unfoldable pub use JsonToWisent.*
unfoldable pub use FirstPass.*
