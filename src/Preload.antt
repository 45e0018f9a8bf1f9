-- ===== src/Preload.antt =====
-- plrPreload
pub mod Crc
pub mod Wrapper
pub mod ReadWrite
pub mod Group
pub mod Files
pub mod Process
pub mod Streams
