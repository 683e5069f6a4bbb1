-- ===== src/RomCache/Sessions.antt =====
-- The session of a game: `merged_unlock_ids`, `build_unlocks_array` and `cache_session` of
-- linux/raofflineproxy/rom_cache.py. Cached data that is malformed may raise in the search for the
-- games of achievements.
use raoffline_proxy.Prelude.{ℕ, ◌/◌, Option, none, some, List, Text}
use raoffline_proxy.CacheKeys.Key
use raoffline_proxy.Json.{Json, Items, Codec}
use raoffline_proxy.Storage.{Store}
use raoffline_proxy.Storage.Cache.{get_cache, upsert_cache}
use raoffline_proxy.Storage.Awards.{get_pending_awards}
use raoffline_proxy.RomCache.Unlocks.{
  cached_unlock_ids, merge_start_session_unlock_ids, pending_unlock_achievement_ids, unlock_items,
  session_value,
}
use raoffline_proxy.RomCache.GameIds.Search.{find_achievement_game_ids}

module _ (json : Codec) where
  open json use {dumps, loads}

  -- The body under the key, where it is there and is JSON.
  unfoldable pub cached_payload : Store → Text → Option Json
  cached_payload s k = elim (get_cache s k) [ none ↦ none | some e ↦ loads e.response_body ]

  unfoldable pub merged_unlock_ids : ℕ → Text → Store → Option (List ℕ)
  unfolding cached_payload cached_unlock_ids merge_start_session_unlock_ids
      find_achievement_game_ids
  merged_unlock_ids game user s =
      let awards = get_pending_awards s in
      let cached = cached_unlock_ids (cached_payload s (Key.unlocks game user)) in
      elim (find_achievement_game_ids json (some game)
        (pending_unlock_achievement_ids (some user) awards) s) [
          | none ↦ none
          | some ids ↦ some (merge_start_session_unlock_ids cached awards ids game user)
        ]

  unfoldable pub build_unlocks_array : ℕ → Text → ℕ → Store → Option Items
  unfolding merged_unlock_ids unlock_items
  build_unlocks_array game user now s = elim (merged_unlock_ids game user s) [
    | none ↦ none
    | some ids ↦ some (unlock_items now ids)
  ]

  -- The clock is in milliseconds, the session's time in seconds.
  unfoldable pub cache_session : ℕ → ℕ → Text → Store → Option Store
  unfolding build_unlocks_array session_value
  cache_session clock game user s =
      let now = clock / 1000 in
      elim (build_unlocks_array game user now s) [
        | none ↦ none
        | some unlocks ↦ some (
            upsert_cache clock (Key.start_session game user) (dumps (session_value now unlocks))
              none none s)
      ]
