-- ===== src/Cha.antt =====
-- src/cha.c up to the capture loop: port A of the FTDI chip, through which the FPGA's registers are
-- written and read. `State` is the object and what a function does with it, `Message` the five
-- bytes of a transaction; `Transaction`, `Registers`, `Ulpi`, `Stream` and `Port` have the
-- functions.
pub mod State
pub mod Message
pub mod Transaction
pub mod Registers
pub mod Ulpi
pub mod Stream
pub mod Port
pub mod Device
pub mod Words
pub mod Sync
pub mod Sim
mod Tests
