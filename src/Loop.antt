-- ===== src/Loop.antt =====
-- The capture loop of src/cha.c: three transfers that libusb completes one after the other, in any
-- order, and whose data goes to the decoders. `State` is the object, `Callbacks` what the decoders
-- call, `Transfer` what libusb calls, `Run` the loop and the environment's steps; the others have
-- what is proved.
pub mod State
pub mod Callbacks
pub mod Transfer
pub mod Run
pub mod Turns
pub mod Invariant
pub mod Drain
pub mod Limit
pub mod Ran
pub mod Handed
pub mod Again
pub mod Delivery
pub mod Memory
pub mod Tests
