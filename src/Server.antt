-- ===== src/Server.antt =====
-- RetroAchievements, as linux/raofflineproxy/network.py reaches it: what a request is answered. A
-- request is given by its action and its parameters; it is sent once in a run, so its answer is a
-- function of it.
use raoffline_proxy.Prelude.{ℕ, Text}

-- `http_get` returns the body, raises `HTTPError` with a code, or raises anything else.
pub data HttpGet : Type 0 where
  body : Text → HttpGet
  http_error : ℕ → HttpGet
  failed : HttpGet

-- `http_post` returns the status and the body, also of an error status, or raises.
pub data HttpPost : Type 0 where
  answer : ℕ → Text → HttpPost
  unreachable : HttpPost

pub record Server : Type 0 where
  -- `patch` of a game, for a user and a token
  pub patch : ℕ → Text → Text → HttpGet
  -- `unlocks` of a game, for a user and a token
  pub unlocks : ℕ → Text → Text → HttpGet
  -- `gameid` and `achievementsets` of a hash, for a user and a token
  pub game_id : Text → Text → Text → HttpGet
  pub achievementsets : Text → Text → Text → HttpGet
  -- `login2` with a user and a password
  pub login : Text → Text → HttpGet
  -- the POST of an award: query string, body, user agent
  pub award : Text → Text → Text → HttpPost
