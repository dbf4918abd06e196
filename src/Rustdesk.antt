-- ===== src/Rustdesk.antt =====
-- src/rustdesk: the RustDesk protocol server.
pub mod BytesCodec
pub mod HidAdapter
