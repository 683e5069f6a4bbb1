-- ===== src/Queue.antt =====
-- The queue of awards over the life of the proxy: what every operation of
-- linux/raofflineproxy/proxy_service.py, pending_awards.py and flusher.py keeps.
pub mod Sound
pub mod Loop
pub mod Flushed
pub mod Grows
pub mod Interleaved
pub mod Overwritten
pub mod Reachable
pub mod Removed
