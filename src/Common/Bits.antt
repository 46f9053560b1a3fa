-- ===== src/Common/Bits.antt =====
-- Laws of `&`, `|` and `^` on numbers of any size.
mod Step
mod Digits
mod Bounds
mod Masks
mod Fields
pub use Step.*
pub use Digits.*
pub use Bounds.*
pub use Masks.*
pub use Fields.*
