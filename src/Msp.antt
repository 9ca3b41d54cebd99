-- ===== src/Msp.antt =====
-- core/include/openipc/msp_osd.h and core/src/msp/displayport.cpp.
pub mod Canvas
pub mod Checksum
pub mod Decoder
mod Tests
