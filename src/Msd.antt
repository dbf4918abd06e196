-- ===== src/Msd.antt =====
-- The mass storage device of the USB gadget.
pub mod Lun
pub mod Health
pub mod Controller
pub mod Examples
