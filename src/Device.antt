-- ===== src/Device.antt =====
-- The functions of src/ov.c that make and free a device, and load its firmware.
pub mod Open
pub mod Firmware
pub mod Api
pub mod Ledger
pub mod Reload
pub mod Owner
pub mod Capture
pub mod Stopping
pub mod Sound
pub mod Tests
