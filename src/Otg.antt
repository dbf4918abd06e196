-- ===== src/Otg.antt =====
-- src/otg: the USB gadget.
pub mod Endpoint
