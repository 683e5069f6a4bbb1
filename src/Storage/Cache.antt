-- ===== src/Storage/Cache.antt =====
-- The cached responses of the JSON store: linux/raofflineproxy/storage.py, from `upsert_cache` to
-- `evict_cache_older_than`. Each operation reloads the document, changes it and writes it back.
use raoffline_proxy.Prelude.{
  ℕ, zero, suc, Bool, ◌&&◌, ◌||◌, not, Option, none, some, List, [], ◌∷◌, map, Text, text_eq, ltb,
  leb, ◌==◌, if◌then◌else◌, keep, find, any, count, starts_with,
}
use raoffline_proxy.Storage.{Entry, Store, next_json_id}
use raoffline_proxy.CacheKeys.{Prefix, prefix_text, has_prefix, cache_budget_key, user_agent_key}

abbrev pub has_key : Text → Entry → Bool
has_key key e = text_eq e.cache_key key

-- `cached_at or current_millis()`: None and 0 both mean now.
unfoldable pub write_time : Option ℕ → ℕ → ℕ
write_time none clock = clock
write_time (some zero) clock = clock
write_time (some (suc t)) clock = suc t

-- The fields that a second write of a key changes.
unfoldable pub overwrite : Text → Option Text → ℕ → Entry → Entry
overwrite body source now e = record e {
  response_body = body;
  source_rom_path = elim source [ none ↦ e.source_rom_path | some path ↦ some path ];
  cached_at = now;
}

abbrev pub fresh_entry : ℕ → Text → Text → Option Text → ℕ → Entry
fresh_entry id key body source now = record {
  id = id;
  cache_key = key;
  response_body = body;
  source_rom_path = source;
  cached_at = now;
  first_cached_at = now;
}

-- The first entry with the key is changed in place; without one, a new entry is appended.
unfoldable pub put_entry : ℕ → Text → Text → Option Text → ℕ → List Entry → List Entry
unfolding overwrite
put_entry id key body source now [] = fresh_entry id key body source now ∷ []
put_entry id key body source now (e ∷ es) =
    let rest = put_entry id key body source now es in
    if has_key key e then overwrite body source now e ∷ es else e ∷ rest

-- `_upsert_cache_json`
unfoldable pub upsert_cache_json : Text → Text → Option Text → ℕ → Store → Store
unfolding put_entry
upsert_cache_json key body source now s = record s {
  api_cache =
      put_entry (next_json_id (map (λ e. e.id) s.api_cache)) key body source now s.api_cache;
}

unfoldable pub upsert_cache : ℕ → Text → Text → Option ℕ → Option Text → Store → Store
unfolding upsert_cache_json write_time
upsert_cache clock key body cached_at source s =
    upsert_cache_json key body source (write_time cached_at clock) s

unfoldable pub get_cache : Store → Text → Option Entry
unfolding find
get_cache s key = find (has_key key) s.api_cache

abbrev pub key_starts_with : Text → Entry → Bool
key_starts_with prefix e = starts_with e.cache_key prefix

unfoldable pub get_cache_by_prefix : Store → Text → Option Entry
get_cache_by_prefix s prefix = find (key_starts_with prefix) s.api_cache

-- `_json_entries_by_prefix`
unfoldable pub entries_by_prefix : Store → Text → List Entry
unfolding keep
entries_by_prefix s prefix = keep (key_starts_with prefix) s.api_cache

unfoldable pub cache_keys_by_prefix : Store → Text → List Text
unfolding entries_by_prefix
cache_keys_by_prefix s prefix = map (λ e. e.cache_key) (entries_by_prefix s prefix)

unfoldable pub count_cache_by_prefix : Store → Text → ℕ
count_cache_by_prefix s prefix = count (key_starts_with prefix) s.api_cache

-- `(firstCachedAt, id)` in the order of tuples.
unfoldable pub older : Entry → Entry → Bool
older a b =
    ltb a.first_cached_at b.first_cached_at
    || ((a.first_cached_at == b.first_cached_at) && ltb a.id b.id)

-- `min(…, key=…)` keeps the first of the least elements.
unfoldable pub oldest_from : Entry → List Entry → Entry
unfolding older
oldest_from best [] = best
oldest_from best (e ∷ es) = oldest_from (if older e best then e else best) es

unfoldable pub oldest_of : List Entry → Option Entry
unfolding oldest_from
oldest_of [] = none
oldest_of (e ∷ es) = some (oldest_from e es)

unfoldable pub oldest_cache_by_prefix : Store → Text → Option Entry
unfolding oldest_of entries_by_prefix
oldest_cache_by_prefix s prefix = oldest_of (entries_by_prefix s prefix)

unfoldable pub delete_cache_by_prefix : Text → Store → Store
delete_cache_by_prefix prefix s = record s {
  api_cache = keep (λ e. not (key_starts_with prefix e)) s.api_cache;
}

-- The first entry with the old key gets the new one.
unfoldable pub rename_entry : Text → Text → List Entry → List Entry
rename_entry old new [] = []
rename_entry old new (e ∷ es) =
    let rest = rename_entry old new es in
    if has_key old e then record e { cache_key = new } ∷ es else e ∷ rest

unfoldable pub rename_cache_key : Text → Text → Store → Store
unfolding rename_entry
rename_cache_key old new s = record s { api_cache = rename_entry old new s.api_cache }

unfoldable pub delete_cache : Text → Store → Store
unfolding keep
delete_cache key s = record s { api_cache = keep (λ e. not (has_key key e)) s.api_cache }

-- What "clear cache" removes: the games, the sessions, the queue and its budget.
unfoldable pub is_cleared : Text → Bool
unfolding prefix_text
is_cleared key =
    has_prefix key Prefix.patch
    || (has_prefix key Prefix.achievementsets
        || (has_prefix key Prefix.unlocks
            || (has_prefix key Prefix.startsession
                || (has_prefix key Prefix.gameid
                    || (has_prefix key Prefix.last_played
                        || (has_prefix key Prefix.cache_queue || text_eq key cache_budget_key))))))

unfoldable pub clear_cache : Store → Store
clear_cache s = record s { api_cache = keep (λ e. not (is_cleared e.cache_key)) s.api_cache }

-- `_EVICTION_EXEMPT_PREFIXES`
abbrev pub exempt_prefixes : List Prefix
exempt_prefixes =
    Prefix.login ∷ Prefix.patch ∷ Prefix.achievementsets ∷ Prefix.unlocks ∷ Prefix.startsession
    ∷ Prefix.gameid ∷ Prefix.cache_queue ∷ Prefix.watch_seen ∷ []

unfoldable pub is_exempt : Text → Bool
unfolding any
is_exempt key = any (has_prefix key) exempt_prefixes || text_eq key user_agent_key

unfoldable pub evict_cache_older_than : ℕ → Store → Store
evict_cache_older_than before s = record s {
  api_cache = keep (λ e. leb before e.cached_at || is_exempt e.cache_key) s.api_cache;
}
