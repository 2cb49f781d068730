-- ===== src/Prelude/Bits.antt =====
-- The native bit operations at variables: masks, alignment, disjoint fields and bounds.
mod Step
pub mod Mask
pub use Mask.*
