-- ===== src/Rtp.antt =====
-- core/include/openipc/rtp.h and core/src/rtp/depacketizer.cpp.
pub mod Header
pub mod Depacketizer
mod Tests
