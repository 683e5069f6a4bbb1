-- ===== src/Proxy.antt =====
-- linux/raofflineproxy/proxy_service.py
pub mod AwardQueue
pub mod Requests
