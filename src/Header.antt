-- ===== src/Header.antt =====
-- The headers that AVTP formats share: include/avtp/CommonHeader.h, CommonStreamHeader.h,
-- AlternativeHeader.h and Udp.h.
pub mod CommonHeader
pub mod CommonStreamHeader
pub mod AlternativeHeader
pub mod Udp
pub mod Versioned
pub mod Formats
pub mod Named
pub mod Init
pub mod InitFormats
pub mod Holds
pub mod Supported
