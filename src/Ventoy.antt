-- ===== src/Ventoy.antt =====
-- libs/ventoy-img-rs: images with an exFAT partition.
pub mod Image
pub mod Exfat
pub mod Format
pub mod File
