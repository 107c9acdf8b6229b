-- ===== src/Fwpkg.antt =====
-- The firmware package of src/fwpkg.c, a zip archive with a register map and a bitstream, and the
-- functions of src/reg.c and src/cha.c that start from it. `Zip` is libzip, `Package` src/fwpkg.c,
-- `Init` reg_init_from_fwpkg and cha_init; the others have what is proved.
pub mod Zip
pub mod Package
pub mod Init
pub mod Reading
pub mod Starting
pub mod Archives
pub mod Kept
pub mod Tests
