-- ===== src/Alink.antt =====
-- Adaptive link (core/src/alink/alink.cpp, core/include/openipc/alink.h): the score of the link, the
-- message that carries it, the controller that keeps the state between them, and the framing.
pub mod Scoring
pub mod Message
pub mod Controller
pub mod Framing
