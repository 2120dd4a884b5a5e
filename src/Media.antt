-- ===== src/Media.antt =====
-- The media formats: include/avtp/Crf.h, Rvf.h, aaf and cvf.
pub mod Crf
pub mod Aaf
pub mod Pcm
pub mod Cvf
pub mod Rvf
pub mod RvfRawHeader
pub mod H264
pub mod Jpeg2000
pub mod Mjpeg
pub mod Valid
