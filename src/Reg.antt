-- ===== src/Reg.antt =====
-- src/reg.c, include/reg.h and src/reg.gperf: the register map, which names the FPGA's registers.
-- `State` has the names, `Text` what the code uses of the C library, `Map` the reader, `Complete`
-- what is proved of it.
pub mod State
pub mod Text
pub mod Map
pub mod Complete
mod Tests
