-- ===== src/Hid.antt =====
-- src/hid: keyboard and mouse events, their messages, and the backends that send them.
pub mod Keyboard
pub mod Event
pub mod Report
pub mod DataChannel
pub mod Controller
pub mod Ch9329
pub mod OtgBackend
