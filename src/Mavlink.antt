-- ===== src/Mavlink.antt =====
-- core/include/openipc/mavlink_router.h and core/src/mavlink/router.cpp.
pub mod Framer
pub mod Telemetry
pub mod Router
