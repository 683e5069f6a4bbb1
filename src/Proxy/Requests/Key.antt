-- ===== src/Proxy/Requests/Key.antt =====
-- The key under which the response to a request is cached: `cache_key_for_request`,
-- `should_cache_response` and `should_cache_action` of linux/raofflineproxy/proxy_service.py.
use raoffline_proxy.Prelude.{
  Bool, ◌&&◌, ◌||◌, not, Option, [], ◌∷◌, ◌++◌, Text, codes, text_eq, starts_with, is_empty,
  is_some, if◌then◌else◌, get_or,
}
use raoffline_proxy.CacheKeys.{Prefix, prefix_text, normalize}
use raoffline_proxy.CacheKeys.Key
use raoffline_proxy.FormParams.{extract_request_param, extract_action, is_text}
use raoffline_proxy.Flusher.Send.{contains}

-- A key of cache_keys.py whose game is a text of the request.
unfoldable pub game_key : Prefix → Text → Text → Text
unfolding prefix_text normalize
game_key prefix game user = prefix_text prefix ++ (game ++ 58 ∷ normalize user)

unfoldable pub session_key : Prefix → Text → Text → Text
unfolding prefix_text normalize
session_key prefix game user = prefix_text prefix ++ (game ++ 58 ∷ (normalize user ++ codes ":0"))

-- `extract_request_param(path, body, name) or ""`
unfoldable pub param : Text → Text → Text → Text
unfolding extract_request_param
param path body name = get_or (extract_request_param path body name) []

-- `… or …` of two texts.
abbrev pub or_else : Text → Text → Text
or_else a b = if is_empty a then b else a

unfoldable pub cache_key_for_request : Text → Text → Text
unfolding text_eq extract_action param game_key session_key normalize
cache_key_for_request path body =
    let action = or_else (get_or (extract_action path body) []) (codes "unknown") in
    let game = or_else (param path body (codes "g")) (param path body (codes "i")) in
    let hash = param path body (codes "m") in
    let user = normalize (param path body (codes "u")) in
    let hardcore = param path body (codes "h") in
    if text_eq action (codes "gameid")
    then Key.game_id hash
    else if text_eq action (codes "login") || text_eq action (codes "login2")
    then Key.login user
    else if text_eq action (codes "achievementsets")
    then Key.achievementsets (or_else hash (or_else game (codes "unknown"))) user
    else if text_eq action (codes "startsession")
    then session_key Prefix.startsession game user
    else if text_eq action (codes "patch")
    then game_key Prefix.patch game user
    else if text_eq action (codes "unlocks")
    then session_key Prefix.unlocks game user
    else if is_empty hardcore
    then action ++ 58 ∷ (game ++ 58 ∷ user)
    else action ++ 58 ∷ (game ++ 58 ∷ (user ++ 58 ∷ hardcore))

unfoldable pub should_cache_response : Text → Bool
unfolding contains
should_cache_response body =
    contains (codes "\"Success\":true") body || contains (codes "\"Success\": true") body

unfoldable pub should_cache_action : Option Text → Text → Bool
unfolding starts_with text_eq
should_cache_action action path =
    is_some action
    && (starts_with path (codes "/dorequest.php") && not (is_text action (codes "startsession")))
