-- ===== src/Trackers.antt =====
-- The trackers (src/trackers/, inc/trackers/).
pub mod Udp
pub mod Http
