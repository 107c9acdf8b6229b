-- ===== src/Tools.antt =====
-- tools/load/main.c and tools/sample/main.c, the example programs.
pub mod Exit
pub mod Load
pub mod Sample
pub mod Closes
pub mod Board
mod Tests
