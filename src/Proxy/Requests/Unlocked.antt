-- ===== src/Proxy/Requests/Unlocked.antt =====
-- The unlocks that linux/raofflineproxy/proxy_service.py lists offline.
use raoffline_proxy.Prelude.{ℕ, Bool, ◌&&◌, ◌||◌, Text, codes, any}
use raoffline_proxy.CacheKeys.Key
use raoffline_proxy.Json.{Json, Fields, Codec, field_of}
use raoffline_proxy.Storage.{Store}
use raoffline_proxy.Storage.Awards.{get_pending_awards}
use raoffline_proxy.RomCache.Unlocks.{GameIds}
use raoffline_proxy.RomCache.Merged.{adds}
use raoffline_proxy.Proxy.Requests.Listed.{is_achievement, lists_number, lists_item}

module _ (json : Codec) where
  module _ (game : ℕ) (user : Text) (s : Store) where
    -- The achievement is unlocked for the user: the cached unlocks list it, or a pending softcore award of the
    -- user is for it and its game is the one of the session.
    abbrev pub is_unlocked : GameIds → Fields → ℕ → Bool
    is_unlocked games payload n =
        (is_achievement n && lists_number n (field_of (codes "UserUnlocks") payload))
        || any (adds games game user n) (get_pending_awards s)

    -- The achievement is among the user's unlocks, or the cached session lists it.
    abbrev pub is_listed : GameIds → Fields → Fields → ℕ → Bool
    is_listed games payload session n =
        is_unlocked games payload n
        || (is_achievement n && lists_item n (field_of (codes "Unlocks") session))
