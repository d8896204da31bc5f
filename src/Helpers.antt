-- ===== src/Helpers.antt =====
-- Source/WisentHelpers.h: the root expression, a header followed by one untyped buffer that holds
-- the argument values, the argument types, the expressions and the string buffer one after the other.
-- An offset is the byte distance from `root->arguments`, computed in `size_t` (modulo 2^64).
-- The buffer up to the string buffer is a list of 64-bit words (every member is one word); an access
-- outside it is the fault `out_of_bounds`.
mod Defs
pub mod Access
pub mod Cells
pub mod Frame
pub mod Members
pub mod Runs
pub mod Sizes
pub mod Text
unfoldable pub use Defs.*
