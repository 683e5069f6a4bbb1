-- ===== src/Tests/Cache.antt =====
-- The cache and its keys.
use raoffline_proxy.Prelude.{
  ◌||◌, [], ◌≡◌, refl, some, none, [], codes, text_eq, if◌then◌else◌, ◌||◌, leb, All, false,
  starts_with,
}
use raoffline_proxy.CacheKeys.Key
use raoffline_proxy.Storage.Cache.{
  get_cache, upsert_cache_json, evict_cache_older_than, is_exempt, oldest_cache_by_prefix, older,
  entries_by_prefix,
}
use raoffline_proxy.Storage.CacheLaws.{IsCache, upsert-IsCache}
use raoffline_proxy.Storage.Eviction.{get_cache-evict, evict-keeps_games, oldest-NoneOlder}
use raoffline_proxy.Storage.Migration.{move_key, get_cache-move_key}
use raoffline_proxy.Tests.Data.{cached, ping_entry}

cached-IsCache : IsCache cached.api_cache
unfolding text_eq
cached-IsCache = record { keys = ((refl, tt), (tt, tt)); ids = ((refl, tt), (tt, tt)) }

upsert-IsCache_example :
    IsCache (upsert_cache_json (codes "ping") (codes "ok") none 9 cached).api_cache
upsert-IsCache_example = upsert-IsCache cached (codes "ping") (codes "ok") none 9 cached-IsCache

get_cache-evict_example :
    get_cache (evict_cache_older_than 5 cached) (codes "ping")
    ≡ elim (get_cache cached (codes "ping")) [
      | none ↦ none
      | some e ↦ if leb 5 e.cached_at || is_exempt e.cache_key then some e else none
    ]
get_cache-evict_example = get_cache-evict cached 5 (codes "ping") cached-IsCache

evict-keeps_games_example :
    let after = evict_cache_older_than 5 cached in
    (get_cache after (Key.patch 7 (codes "bob")) ≡ get_cache cached (Key.patch 7 (codes "bob")))
    × (get_cache after (Key.unlocks 7 (codes "bob"))
        ≡ get_cache cached (Key.unlocks 7 (codes "bob")))
    × (get_cache after (Key.start_session 7 (codes "bob"))
        ≡ get_cache cached (Key.start_session 7 (codes "bob")))
    × (get_cache after (Key.achievementsets (codes "h") (codes "bob"))
        ≡ get_cache cached (Key.achievementsets (codes "h") (codes "bob")))
    × (get_cache after (Key.game_id (codes "h")) ≡ get_cache cached (Key.game_id (codes "h")))
    × (get_cache after (Key.login (codes "bob")) ≡ get_cache cached (Key.login (codes "bob")))
    × (get_cache after (Key.cache_queue (codes "h"))
        ≡ get_cache cached (Key.cache_queue (codes "h")))
    × (get_cache after (Key.watch_seen (codes "p")) ≡ get_cache cached (Key.watch_seen (codes "p")))
evict-keeps_games_example = evict-keeps_games cached 5 7 (codes "bob") (codes "h") (codes "p")

oldest-NoneOlder_example : All (λ x. older x ping_entry ≡ false) (entries_by_prefix cached [])
unfolding oldest_cache_by_prefix starts_with
oldest-NoneOlder_example = oldest-NoneOlder cached [] ping_entry refl

get_cache-move_key_example :
    get_cache (move_key (codes "patch:7:bob") (codes "patch:8:bob") cached) (codes "patch:8:bob")
    ≡ elim (get_cache cached (codes "patch:8:bob")) [
      | some e ↦ some e
      | none ↦ elim (get_cache cached (codes "patch:7:bob")) [
        | none ↦ none
        | some e ↦ some (record e { cache_key = codes "patch:8:bob" })
      ]
    ]
unfolding text_eq
get_cache-move_key_example =
    get_cache-move_key (codes "patch:7:bob") (codes "patch:8:bob") cached refl
