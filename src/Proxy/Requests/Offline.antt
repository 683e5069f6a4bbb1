-- ===== src/Proxy/Requests/Offline.antt =====
-- The answers of linux/raofflineproxy/proxy_service.py while RetroAchievements cannot be reached:
-- `handle_offline_request`, `handle_start_session` and `handle_offline_login`. Rewriting the URLs of images,
-- and the sets of another disc of a game, are arguments.
use raoffline_proxy.Prelude.{
  ℕ, ◌/◌, true, false, ◌&&◌, ◌||◌, not, Option, none, some, List, [], ◌∷◌, ◌++◌, Text, codes,
  text_eq, is_empty, is_some, ltb, ◌==◌, if◌then◌else◌,
}
use raoffline_proxy.CacheKeys.Decimal.{is_digits, int_of}
use raoffline_proxy.CacheKeys.Key
use raoffline_proxy.Json.{
  Json, Items, Fields, bool, num, str, arr, obj, nil, cons, end, field, Codec, field_of, set_field,
  to_int, is_true,
}
use raoffline_proxy.Storage.{Entry, Store}
use raoffline_proxy.Storage.Awards.{warning_achievement_id}
use raoffline_proxy.Storage.Cache.{get_cache, get_cache_by_prefix}
use raoffline_proxy.FormParams.{is_text}
use raoffline_proxy.RomCache.ActionFilter.{filter_warning_achievements_for_action}
use raoffline_proxy.RomCache.Unlocks.{merge_cached, unlock_items}
use raoffline_proxy.RomCache.Sessions.{merged_unlock_ids}
use raoffline_proxy.Proxy.Requests.Key.{param, or_else, cache_key_for_request, should_cache_action}

-- An answer: `ok_json` of a body, `error_json`, or the status and the body that RetroAchievements gave.
pub data Answer : Type 0 where
  ok_json : Text → Answer
  error_json : ℕ → Text → Answer
  forwarded : ℕ → Text → Answer

-- `int(s)` of digits; any other text is taken to raise.
unfoldable pub int_text : Text → Option ℕ
int_text s = if is_digits s then some (int_of s) else none

unfoldable pub number_items : List ℕ → Items
number_items [] = nil
number_items (n ∷ ns) = cons (num n) (number_items ns)

-- `int(item.get("ID", 0) or 0)`
unfoldable pub id_of : Fields → Option ℕ
unfolding field_of is_true to_int
id_of item = elim (field_of (codes "ID") item) [
  | none ↦ some 0
  | some v ↦ if is_true v then to_int v else some 0
]

-- The unlocks of a cached session; `none` where an ID raises.
unfoldable pub session_ids : Items → Option (List ℕ)
unfolding id_of
session_ids nil = some []
session_ids (cons (obj item) vs) =
    let rest = session_ids vs in
    elim (id_of item) [
      | none ↦ none
      | some n ↦ elim rest [
        | none ↦ none
        | some ns ↦ some (if ltb 0 n && not (n == warning_achievement_id) then n ∷ ns else ns)
      ]
    ]
session_ids (cons _ vs) = session_ids vs

-- `payload.get("Unlocks", [])`; what cannot be looped over raises.
unfoldable pub cached_session_ids : Fields → Option (List ℕ)
unfolding field_of session_ids
cached_session_ids payload = elim (field_of (codes "Unlocks") payload) [
  | none ↦ some []
  | some (arr entries) ↦ session_ids entries
  | some (obj fs) ↦ some []
  | some (str s) ↦ some []
  | some _ ↦ none
]

-- `int(payload.get("ServerNow", now) or now)`
unfoldable pub session_time : ℕ → Fields → Option ℕ
unfolding field_of is_true to_int
session_time now payload = elim (field_of (codes "ServerNow") payload) [
  | none ↦ some now
  | some v ↦ if is_true v then to_int v else some now
]

-- `payload.setdefault(k, v)`
unfoldable pub set_default_field : Text → Json → Fields → Fields
unfolding field_of set_field
set_default_field k v payload =
    if is_some (field_of k payload) then payload else set_field k v payload

abbrev pub empty_unlocks : Fields
empty_unlocks = field (codes "Success") (bool true) (field (codes "UserUnlocks") (arr nil) end)

abbrev pub empty_session : ℕ → Fields
empty_session now =
    field (codes "Success") (bool true)
      (field (codes "ServerNow") (num now) (field (codes "HardcoreUnlocks") (arr nil) end))

-- The body of a cache miss of a game's id.
abbrev pub game_id_cache_miss : Json
game_id_cache_miss = obj (
    field (codes "Success") (bool false) (
      field (codes "Error") (str (codes "Game not cached. Launch this game while online first."))
        (field (codes "GameID") (num 0) end)))

module _ (json : Codec) where
  open json use {dumps, loads}

  -- The cached payload, or the given one where nothing can be read; `none` if it is no dict, which raises.
  unfoldable pub payload_or : Fields → Option Entry → Option Fields
  payload_or default none = some default
  payload_or default (some e) = elim (loads e.response_body) [
    | none ↦ some default
    | some (obj payload) ↦ some payload
    | some _ ↦ none
  ]

  unfoldable pub build_offline_unlocks_response : ℕ → Text → Store → Option Text
  unfolding get_cache merged_unlock_ids set_field payload_or number_items
  build_offline_unlocks_response game user s =
      elim (payload_or empty_unlocks (get_cache s (Key.unlocks game user))) [
        | none ↦ none
        | some payload ↦ elim (merged_unlock_ids json game user s) [
          | none ↦ none
          | some ids ↦ some (
              dumps (
                obj (
                  set_field (codes "UserUnlocks") (arr (number_items ids))
                    (set_field (codes "Success") (bool true) payload))))
        ]
      ]

  -- The merged unlocks, and the cached ones that are not among them.
  unfoldable pub build_merged_start_session_unlocks : ℕ → Text → List ℕ → Store → Option (List ℕ)
  unfolding merged_unlock_ids merge_cached
  build_merged_start_session_unlocks game user cached s =
      elim (merged_unlock_ids json game user s) [
        | none ↦ none
        | some [] ↦ some cached
        | some (n ∷ ns) ↦ some (merge_cached (n ∷ ns) cached)
      ]

  unfoldable pub session_response : ℕ → ℕ → Text → Store → Fields → Option Text
  unfolding session_time cached_session_ids set_field set_default_field unlock_items
      build_merged_start_session_unlocks
  session_response now game user s payload = elim (session_time now payload) [
    | none ↦ none
    | some time ↦ elim (cached_session_ids payload) [
      | none ↦ none
      | some cached ↦ elim (build_merged_start_session_unlocks game user cached s) [
        | none ↦ none
        | some ids ↦ some (
            dumps (
              obj (
                set_field (codes "Unlocks") (arr (unlock_items time ids)) (
                  set_default_field (codes "HardcoreUnlocks") (arr nil)
                    (set_field (codes "Success") (bool true) payload)))))
      ]
    ]
  ]

  -- The clock is in milliseconds.
  unfoldable pub build_offline_start_session_response : ℕ → ℕ → Text → Store → Option Text
  unfolding get_cache session_response payload_or
  build_offline_start_session_response clock game user s =
      elim (payload_or (empty_session (clock / 1000)) (get_cache s (Key.start_session game user))) [
        | none ↦ none
        | some payload ↦ session_response (clock / 1000) game user s payload
      ]

abbrev pub answer_with : Option Text → Option Answer
answer_with none = none
answer_with (some body) = some (ok_json body)

module _ (json : Codec) (rewrite : Option Text → Text → Text)
    (same_game : Store → Text → Text → Option Entry) where
  unfoldable pub handle_start_session : ℕ → Text → Text → Store → Option Answer
  unfolding param int_text build_offline_start_session_response
  handle_start_session clock path body s =
      let game = param path body (codes "g") in
      let user = param path body (codes "u") in
      if is_empty game || is_empty user
      then some (error_json 400 (codes "bad request"))
      else elim (int_text game) [
        | none ↦ none
        | some n ↦ answer_with (build_offline_start_session_response json clock n user s)
      ]

  -- The cached response, as it is passed on.
  unfoldable pub cached_answer : Option Text → Entry → Option Answer
  unfolding filter_warning_achievements_for_action
  cached_answer action e =
      answer_with
        (filter_warning_achievements_for_action json action (rewrite action e.response_body))

  -- The sets under the hash, under the game, and of another disc.
  unfoldable pub find_achievementsets : Text → Text → Store → Option Entry
  unfolding param get_cache
  find_achievementsets path body s =
      let hash = param path body (codes "m") in
      let game = or_else (param path body (codes "g")) (param path body (codes "i")) in
      let user = param path body (codes "u") in
      let under : Text → Option Entry = λ scope.
        if is_empty scope || is_empty user
        then none
        else get_cache s (Key.achievementsets scope user) in
      elim (under hash) [
        | some e ↦ some e
        | none ↦ elim (under game) [
          | some e ↦ some e
          | none ↦ if is_empty hash || is_empty user then none else same_game s hash user
        ]
      ]

  -- `get_cache(key) or get_cache_by_prefix(f"{key}:")`
  unfoldable pub find_cached : Text → Store → Option Entry
  unfolding get_cache get_cache_by_prefix
  find_cached key s = elim (get_cache s key) [
    | some e ↦ some e
    | none ↦ get_cache_by_prefix s (key ++ 58 ∷ [])
  ]

  unfoldable pub uncached_answer : Option Text → Text → Text → Store → Option Answer
  unfolding text_eq find_achievementsets cached_answer
  uncached_answer action path body s =
      if is_text action (codes "gameid")
      then some (ok_json (json.dumps game_id_cache_miss))
      else elim (if is_text action (codes "achievementsets")
          then find_achievementsets path body s
          else none) [
            | none ↦ some (error_json 503 (codes "no cached response"))
            | some e ↦ cached_answer action e
          ]

  unfoldable pub cached_or_not : Option Text → Text → Text → Store → Option Answer
  unfolding find_cached cache_key_for_request cached_answer uncached_answer
  cached_or_not action path body s = elim (find_cached (cache_key_for_request path body) s) [
    | some e ↦ cached_answer action e
    | none ↦ uncached_answer action path body s
  ]

  -- `none`: an exception.
  unfoldable pub handle_offline_request : Text → Text → Option Text → Store → Option Answer
  unfolding should_cache_action text_eq param int_text build_offline_unlocks_response cached_or_not
  handle_offline_request path body action s =
      let game = param path body (codes "g") in
      let user = param path body (codes "u") in
      if not (should_cache_action action path)
      then some (error_json 503 (codes "offline"))
      else if is_text action (codes "unlocks") && (not (is_empty game) && not (is_empty user))
      then elim (int_text game) [
        | none ↦ none
        | some n ↦ answer_with (build_offline_unlocks_response json n user s)
      ]
      else cached_or_not action path body s
