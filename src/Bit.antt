-- ===== src/Bit.antt =====
-- src/bit.c: the FPGA bitstream file. `Parser` is `bit_init`, `Format` what it accepts, `Reverse`
-- the table that turns the bits of a byte around.
pub mod Parser
pub mod Format
pub mod Bounds
pub mod Reverse
mod Tests
pub mod Loader
pub mod Sending
pub mod Recording
