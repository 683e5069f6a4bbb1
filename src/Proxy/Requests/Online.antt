-- ===== src/Proxy/Requests/Online.antt =====
-- The answers of linux/raofflineproxy/proxy_service.py while RetroAchievements is reached:
-- `handle_online_request` and `refresh_unlocks_from_start_session`. Image downloads are left out.
use raoffline_proxy.Prelude.{
  ℕ, Bool, true, false, ◌&&◌, ◌||◌, not, Option, none, some, List, [], ◌∷◌, Text, codes, text_eq,
  is_empty, is_some, ltb, ◌==◌, starts_with, if◌then◌else◌,
}
use raoffline_proxy.CacheKeys.{Prefix}
use raoffline_proxy.CacheKeys.Key
use raoffline_proxy.Json.{Items, bool, arr, obj, nil, cons, end, field, Codec, field_of, as_int}
use raoffline_proxy.Storage.{Entry, Store}
use raoffline_proxy.Storage.Awards.{warning_achievement_id}
use raoffline_proxy.Storage.Cache.{upsert_cache}
use raoffline_proxy.Server.{Server}
use raoffline_proxy.FormParams.{is_text}
use raoffline_proxy.Auth.{Credentials}
use raoffline_proxy.RomCache.{cache_unlocks}
use raoffline_proxy.RomCache.ActionFilter.{filter_warning_achievements_for_action}
use raoffline_proxy.Proxy.AwardQueue.{Upstream, success, http_error, network_error}
use raoffline_proxy.Proxy.Requests.Key.{
  param, session_key, cache_key_for_request, should_cache_action, should_cache_response,
}
use raoffline_proxy.Proxy.Requests.Offline.{
  Answer, error_json, forwarded, int_text, number_items, handle_offline_request,
}

-- The unlocks that an answered session lists.
unfoldable pub listed_ids : Items → List ℕ
unfolding field_of as_int
listed_ids nil = []
listed_ids (cons (obj item) vs) =
    let rest = listed_ids vs in
    elim (field_of (codes "ID") item) [
      | none ↦ rest
      | some v ↦ elim (as_int v) [
        | none ↦ rest
        | some n ↦ if ltb 0 n && not (n == warning_achievement_id) then n ∷ rest else rest
      ]
    ]
listed_ids (cons _ vs) = listed_ids vs

module _ (json : Codec) (clock : ℕ) where
  open json use {dumps, loads}

  -- False: the payload is no dict, which raises.
  unfoldable pub refresh_unlocks_from_start_session : ℕ → Text → Text → Store → Store × Bool
  unfolding upsert_cache field_of listed_ids number_items
  refresh_unlocks_from_start_session game user body s = elim (loads body) [
    | none ↦ (s, true)
    | some (obj payload) ↦ elim (field_of (codes "Unlocks") payload) [
      | some (arr entries) ↦ (
        upsert_cache clock (Key.unlocks game user)
            (dumps (
              obj (
                field (codes "Success") (bool true)
                  (field (codes "UserUnlocks") (arr (number_items (listed_ids entries))) end))))
            none none s,
        true,
      )
      | _ ↦ (s, true)
    ]
    | some _ ↦ (s, false)
  ]

  -- The session that is kept, where the request names a game and a user.
  unfoldable pub keep_session : Text → Text → Text → Store → Store × Bool
  unfolding param session_key upsert_cache int_text refresh_unlocks_from_start_session
  keep_session path body response s =
      let game = param path body (codes "g") in
      let user = param path body (codes "u") in
      let kept =
        upsert_cache clock (session_key Prefix.startsession game user) response none none s in
      if is_empty game || is_empty user then (s, true) else elim (int_text game) [
        | none ↦ (kept, false)
        | some n ↦ refresh_unlocks_from_start_session n user response kept
      ]

  -- The unlocks of a game whose data was asked for.
  unfoldable pub keep_unlocks : Server → Text → Text → Store → Store × Bool
  unfolding param int_text cache_unlocks
  keep_unlocks server path body s =
      let game = param path body (codes "g") in
      let creds : Credentials = record {
        user = param path body (codes "u");
        token = param path body (codes "t");
      } in
      if is_empty game || (is_empty creds.user || is_empty creds.token)
      then (s, true)
      else elim (int_text game) [
        | none ↦ (s, false)
        | some n ↦
            elim (cache_unlocks json (server.unlocks n creds.user creds.token) clock n creds s) [
              | none ↦ (s, false)
              | some s' ↦ (s', true)
            ]
      ]

  module _ (rewrite : Option Text → Text → Text) (server : Server) where
    -- A response that is cached, and what the emulator gets of it.
    unfoldable pub keep_response :
        Text → Text → Option Text → ℕ → Text → Store → Store × Option Answer
    unfolding should_cache_response should_cache_action cache_key_for_request upsert_cache text_eq
        keep_unlocks
    keep_response path body action status response s =
        let kept = upsert_cache clock (cache_key_for_request path body) response none none s in
        let with_unlocks =
          if is_text action (codes "patch")
          then keep_unlocks server path body kept
          else (kept, true) in
        if should_cache_response response && should_cache_action action path
        then (
          with_unlocks.0,
          if with_unlocks.1 then some (forwarded status (rewrite action response)) else none,
        )
        else (s, some (forwarded status response))

    unfoldable pub answer_online :
        Text → Text → Option Text → ℕ → Text → Store → Store × Option Answer
    unfolding filter_warning_achievements_for_action should_cache_response text_eq keep_session
        keep_response
    answer_online path body action status response s =
        elim (filter_warning_achievements_for_action json action response) [
          | none ↦ (s, none)
          | some filtered ↦
              let session =
                if is_text action (codes "startsession") && should_cache_response filtered
                then keep_session path body filtered s
                else (s, true) in
              if session.1
              then keep_response path body action status filtered session.0
              else (session.0, none)
        ]

    unfoldable pub handle_online_request :
        (Store → Text → Text → Option Entry)
        → Upstream
        → Text
        → Text
        → Option Text
        → Store
        → Store × Option Answer
    unfolding starts_with answer_online handle_offline_request
    handle_online_request same_game upstream path body action s = elim upstream [
      | network_error ↦ (s, handle_offline_request json rewrite same_game path body action s)
      | http_error status response ↦ (s, some (error_json 503 (codes "upstream unavailable")))
      | success status response ↦
          if is_some action && starts_with path (codes "/dorequest.php")
          then answer_online path body action status response s
          else (s, some (forwarded status response))
    ]
