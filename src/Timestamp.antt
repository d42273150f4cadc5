-- ===== src/Timestamp.antt =====
-- src/timestamp.c: draws a text, in a fixed font, on the luma plane of an image.
pub mod Font
pub mod Tables
pub mod Draw
pub mod Lookup
pub mod Safety
pub mod Text
pub mod Overlay
mod Tests
