-- ===== src/Flusher.antt =====
-- linux/raofflineproxy/flusher.py: sending the queued awards.
pub mod Chain
pub mod Repair
pub mod Award
pub mod Send
pub mod Run
