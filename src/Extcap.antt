-- ===== src/Extcap.antt =====
-- tools/ovextcap/main.c: what the Wireshark tool does with each packet that the library delivers.
-- `Pcap` writes records, `Filter` is the NAK and SOF filter, `Handler` the packet callback.
pub mod Pcap
pub mod Filter
pub mod Handler
pub mod Queue
pub mod Transactions
pub mod Clock
pub mod Output
pub mod Lossless
pub mod Stream
pub mod Callback
pub mod Pipeline
pub mod System
pub mod Fed
pub mod Capture
pub mod Finished
pub mod Header
pub mod Ready
pub mod Captured
pub mod Options
pub mod Listing
pub mod Main
pub mod Consistent
pub mod Asked
pub mod Records
pub mod Sending
mod Tests
mod Trials
