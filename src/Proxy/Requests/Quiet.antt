-- ===== src/Proxy/Requests/Quiet.antt =====
-- What a request leaves in the cache of linux/raofflineproxy/proxy_service.py while RetroAchievements
-- cannot be reached.
use raoffline_proxy.Prelude.{◌≡◌, Text}
use raoffline_proxy.CacheKeys.Key
use raoffline_proxy.Storage.{Store}
use raoffline_proxy.Storage.Cache.{get_cache}
use raoffline_proxy.Server.{Server}

-- The same entry under `k`, and the same awards.
pub record IsQuiet (k : Text) (s' s : Store) : Type 0 where
  pub entry : get_cache s' k ≡ get_cache s k
  pub awards : s'.pending_awards ≡ s.pending_awards
