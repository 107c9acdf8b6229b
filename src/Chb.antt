-- ===== src/Chb.antt =====
-- src/chb.c: port B of the FTDI chip, which resets and configures the FPGA. `Port` has the
-- functions, `Open` and `Program` what is proved of them.
pub mod Port
pub mod Open
pub mod Program
mod Tests
