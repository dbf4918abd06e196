-- ===== src/Webrtc.antt =====
-- src/webrtc: the media that goes to a browser.
pub mod H265Payloader
