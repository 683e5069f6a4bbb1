-- ===== src/Proxy/Requests.antt =====
-- The requests to the proxy: what is cached of them while online, and what answers them offline.
-- linux/raofflineproxy/proxy_service.py. The HTTP framing is left out.
pub mod Key
pub mod Offline
pub mod Online
pub mod Kept
pub mod Listed
pub mod Unlocked
pub mod Dispatch
pub mod Queued
pub mod Quiet
