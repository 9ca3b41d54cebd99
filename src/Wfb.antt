-- ===== src/Wfb.antt =====
-- The wfb-ng link: how a frame of the radio is told to be ours, the signal figures (core/src/wfb/wfb_receiver.cpp,
-- core/include/openipc/config.h) and how the uplink builds one
-- (gslib/src/main/cpp/ground_station.cpp).
pub mod Frame
pub mod Signal
pub mod Link
pub mod Receiver
mod Tests
