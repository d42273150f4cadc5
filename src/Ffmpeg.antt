-- ===== src/Ffmpeg.antt =====
-- The backends over FFmpeg: src/ffmpeg_convert.c and src/ffmpeg_encode.c. What the calls of FFmpeg and
-- of malloc answer is an argument.
pub mod Convert
pub mod Encode
pub mod Balance
mod Tests
