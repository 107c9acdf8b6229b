-- ===== src/Decoder.antt =====
-- src/decoder.c and include/decoder.h: the decoder of the capture stream. `State` has the data,
-- `Packet` and `Frame` the two functions that read a buffer, the others what is proved of them.
pub mod State
pub mod Valid
pub mod Packet
pub mod Frame
pub mod Bytewise
pub mod Chunks
pub mod Safety
pub mod Users
pub mod Wire
mod Tests
