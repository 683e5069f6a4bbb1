-- ===== src/Proxy/Requests/Kept.antt =====
-- What linux/raofflineproxy/proxy_service.py keeps of an online answer is its offline answer.
use raoffline_proxy.CacheKeys.Key
use raoffline_proxy.Server.{Server}
