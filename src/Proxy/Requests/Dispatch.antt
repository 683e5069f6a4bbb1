-- ===== src/Proxy/Requests/Dispatch.antt =====
-- Which handler answers a request: `process_proxy_request`, `handle_offline_login` and
-- `record_game_activity` of linux/raofflineproxy/proxy_service.py, with `record_game_played` of
-- linux/raofflineproxy/last_played.py. Awards go to Proxy.AwardQueue, and images are left out.
use raoffline_proxy.Prelude.{
  ℕ, ◌-◌, Bool, false, ◌&&◌, ◌||◌, not, Option, none, some, List, [], ◌∷◌, Text, codes, text_eq,
  is_empty, ltb, ◌==◌, any, starts_with, if◌then◌else◌,
}
use raoffline_proxy.CacheKeys.{user_agent_key}
use raoffline_proxy.CacheKeys.Decimal.{decimal, is_digits, int_of}
use raoffline_proxy.CacheKeys.Key
use raoffline_proxy.Json.{Codec}
use raoffline_proxy.Storage.{Entry, Store}
use raoffline_proxy.Storage.Cache.{get_cache, upsert_cache}
use raoffline_proxy.Server.{Server}
use raoffline_proxy.FormParams.{before_mark, extract_action, is_hardcore_request, is_text}
use raoffline_proxy.AwardSigning.{Crypto}
use raoffline_proxy.Proxy.AwardQueue.{
  Clock, Reply, handle_award_request, Upstream, success, http_error, network_error,
}
use raoffline_proxy.Proxy.Requests.Key.{param, cache_key_for_request, should_cache_response}
use raoffline_proxy.Proxy.Requests.Offline.{
  Answer, ok_json, error_json, forwarded, int_text, answer_with, build_offline_unlocks_response,
  handle_start_session, handle_offline_request,
}
use raoffline_proxy.Proxy.Requests.Online.{handle_online_request}

-- LAST_PLAYED_WRITE_INTERVAL_MS
abbrev pub write_interval : ℕ
write_interval = 60000

-- `_last_written`: the latest time of a game stands first.
abbrev pub Written : Type 0
Written = List (ℕ × ℕ)

unfoldable pub last_write : ℕ → Written → Option ℕ
last_write game [] = none
last_write game ((g, time) ∷ later) =
    let rest = last_write game later in if g == game then some time else rest

-- A write that is younger than the interval; a time that stands before it counts as younger.
unfoldable pub is_recent : ℕ → Option ℕ → Bool
is_recent now none = false
is_recent now (some previous) = ltb (now - previous) write_interval

unfoldable pub write_played : ℕ → ℕ → Written × Store → Written × Store
unfolding upsert_cache decimal
write_played now game (written, s) =
    ((game, now) ∷ written, upsert_cache now (Key.last_played game) (decimal now) (some now) none s)

unfoldable pub record_game_played : ℕ → ℕ → Written × Store → Written × Store
unfolding last_write is_recent write_played
record_game_played now game p =
    if (game == 0) || is_recent now (last_write game p.0) then p else write_played now game p

unfoldable pub record_game_activity : ℕ → Text → Text → Written × Store → Written × Store
unfolding param record_game_played
record_game_activity now path body p =
    let game = param path body (codes "g") in
    if not (is_empty game) && is_digits game then record_game_played now (int_of game) p else p

-- `action in {…}`
abbrev pub is_one_of : Option Text → List Text → Bool
is_one_of action actions = any (λ name. is_text action name) actions

abbrev pub award_actions : List Text
award_actions = codes "awardachievement" ∷ codes "submitlbentry" ∷ []

abbrev pub fake_offline_success_actions : List Text
fake_offline_success_actions = codes "ping" ∷ codes "postactivity" ∷ []

abbrev pub always_try_upstream_actions : List Text
always_try_upstream_actions = codes "login" ∷ codes "login2" ∷ []

abbrev pub last_played_actions : List Text
last_played_actions = codes "ping" ∷ codes "startsession" ∷ []

-- The places that ask whether RetroAchievements is reached; each may be answered anew.
pub data Check : Type 0 where
  at_award at_unlocks at_session at_hardcore at_ping at_end : Check

-- What a request finds outside: the clock, that of a queued award, the checks, and what a forwarded request
-- meets, the first time for a login, and else.
pub record Outside : Type 0 where
  pub clock : ℕ
  pub award_clock : Clock
  pub is_online : Check → Bool
  pub login_upstream : Upstream
  pub upstream : Upstream

-- `if user_agent: storage.upsert_cache(cache_keys.USER_AGENT, user_agent)`
unfoldable pub note_user_agent : ℕ → Option Text → Store → Store
unfolding upsert_cache
note_user_agent clock none s = s
note_user_agent clock (some agent) s =
    if is_empty agent then s else upsert_cache clock user_agent_key agent none none s

-- FALLBACK_USER_AGENT
abbrev pub fallback_user_agent : Text
fallback_user_agent = codes "RetroArch/1.21.0 (Linux)"

-- `headers.get("User-Agent") or … or FALLBACK_USER_AGENT`
unfoldable pub agent_or_fallback : Option Text → Text
agent_or_fallback none = fallback_user_agent
agent_or_fallback (some agent) = if is_empty agent then fallback_user_agent else agent

-- An image, which is handled elsewhere, or the answer; `none` is an exception.
pub data Handled : Type 0 where
  to_image : Handled
  awarded : Option Reply → Handled
  answered : Option Answer → Handled

-- IMAGE_PATH_PREFIXES
abbrev pub image_path_prefixes : List Text
image_path_prefixes = codes "/Badge/" ∷ codes "/Images/" ∷ codes "/UserPic/" ∷ []

unfoldable pub is_static_asset_request : Text → Bool
unfolding before_mark any starts_with
is_static_asset_request path =
    any (λ prefix. starts_with (before_mark 63 path) prefix) image_path_prefixes

-- `forward_to_upstream`
unfoldable pub forward_to_upstream : Upstream → Answer
forward_to_upstream (success status body) = forwarded status body
forward_to_upstream (http_error status body) = forwarded status body
forward_to_upstream network_error = error_json 503 (codes "upstream unavailable")

unfoldable pub handle_offline_login : Text → Text → Store → Option Answer
unfolding param get_cache
handle_offline_login path body s =
    let user = param path body (codes "u") in
    if is_empty user then none else elim (get_cache s (Key.login user)) [
      | none ↦ none
      | some e ↦ some (ok_json e.response_body)
    ]

module _ (json : Codec) (rewrite : Option Text → Text → Text) (server : Server)
    (same_game : Store → Text → Text → Option Entry) (o : Outside) (path body : Text) where
  -- The last two steps: online or offline.
  unfoldable pub handle_rest : Store → Store × Option Answer
  unfolding handle_online_request handle_offline_request extract_action
  handle_rest s =
      let action = extract_action path body in
      let online =
        handle_online_request json o.clock rewrite server same_game o.upstream path body action s in
      if o.is_online at_end
      then online
      else (s, handle_offline_request json rewrite same_game path body action s)

  -- A login that RetroAchievements answers; its cached answer else.
  unfoldable pub login_answered : ℕ → Text → Store → Store × Option Answer
  unfolding should_cache_response cache_key_for_request upsert_cache extract_action
  login_answered status response s =
      if should_cache_response response
      then (
        upsert_cache o.clock (cache_key_for_request path body) response none none s,
        some (forwarded status (rewrite (extract_action path body) response)),
      )
      else (s, some (forwarded status response))

  unfoldable pub handle_login : Store → Store × Option Answer
  unfolding login_answered handle_offline_login handle_rest
  handle_login s =
      let rest = handle_rest s in
      elim o.login_upstream [
        | success status response ↦ login_answered status response s
        | http_error status response ↦ login_answered status response s
        | network_error ↦ elim (handle_offline_login path body s) [
          | none ↦ rest
          | some answer ↦ (s, some answer)
        ]
      ]

  unfoldable pub handle_unlocks : Store → Option Answer
  unfolding param int_text build_offline_unlocks_response
  handle_unlocks s = elim (int_text (param path body (codes "g"))) [
    | none ↦ none
    | some game ↦
        answer_with (build_offline_unlocks_response json game (param path body (codes "u")) s)
  ]

  -- The last steps: a login, and every other action.
  unfoldable pub handle_named : Store → Store × Option Answer
  unfolding extract_action any handle_login handle_rest
  handle_named s =
      if is_one_of (extract_action path body) always_try_upstream_actions
      then handle_login s
      else handle_rest s

  -- A hardcore request, which gets the given answer, a ping, and the rest.
  unfoldable pub handle_hardcore : Store → Option Answer → Store × Option Answer
  unfolding extract_action any is_hardcore_request forward_to_upstream handle_named
  handle_hardcore s answer =
      if is_hardcore_request path body
      then (s, answer)
      else if is_one_of (extract_action path body) fake_offline_success_actions
          && not (o.is_online at_ping)
      then (s, some (ok_json (codes "{\"Success\":true}")))
      else handle_named s

  -- The steps after the awards.
  unfoldable pub handle_action : Store → Store × Option Answer
  unfolding extract_action text_eq param handle_unlocks handle_start_session handle_hardcore
  handle_action s =
      let action = extract_action path body in
      let named =
        not (is_empty (param path body (codes "g")))
        && not (is_empty (param path body (codes "u"))) in
      let hardcore =
        if o.is_online at_hardcore
        then forward_to_upstream o.upstream
        else error_json 503 (codes "upstream unavailable") in
      if (is_text action (codes "unlocks") && not (o.is_online at_unlocks)) && named
      then (s, handle_unlocks s)
      else if is_text action (codes "startsession") && not (o.is_online at_session)
      then (s, handle_start_session json rewrite same_game o.clock path body s)
      else handle_hardcore s (some hardcore)

  -- What a request that is no image leaves of its sender and its game.
  unfoldable pub note_request : Option Text → Written × Store → Written × Store
  unfolding note_user_agent record_game_activity extract_action any
  note_request user_agent p =
      let noted : Written × Store = (p.0, note_user_agent o.clock user_agent p.1) in
      if is_one_of (extract_action path body) last_played_actions
      then record_game_activity o.clock path body noted
      else noted

  module _ (c : Crypto) (secret : Text) (already_unlocked : Store → Text → Text → Bool) where
    -- `handle_award_request`; an exception leaves the store as it is.
    unfoldable pub handle_award : Text → Store → Store × Option Reply
    unfolding handle_award_request
    handle_award user_agent s =
        elim (handle_award_request c secret already_unlocked (o.is_online at_award) o.upstream
          o.award_clock path body user_agent s) [
            | none ↦ (s, none)
            | some (s', reply) ↦ (s', some reply)
          ]

    unfoldable pub process_proxy_request :
        Option Text → Written × Store → (Written × Store) × Handled
    unfolding is_static_asset_request note_request agent_or_fallback handle_award handle_action
        extract_action any
    process_proxy_request user_agent p =
        let noted = note_request user_agent p in
        let queued = handle_award (agent_or_fallback user_agent) noted.1 in
        let handled = handle_action noted.1 in
        if is_static_asset_request path
        then (p, to_image)
        else if is_one_of (extract_action path body) award_actions
        then ((noted.0, queued.0), awarded queued.1)
        else ((noted.0, handled.0), answered handled.1)
