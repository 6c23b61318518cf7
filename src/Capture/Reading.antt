-- ===== src/Capture/Reading.antt =====
-- The bytes that the two parsers accept, as the layouts that they read.
pub mod Events
pub mod Messages
