-- ===== src/Flusher/Send.antt =====
-- Sending one award and reading the answer: `send_award` of linux/raofflineproxy/flusher.py.
pub mod Outcomes
use raoffline_proxy.Prelude.{
  ℕ, Bool, true, false, ◌||◌, Option, none, some, List, [], ◌∷◌, ◌++◌, Text, codes, is_empty, ltb,
  leb, ◌==◌, if◌then◌else◌, get_or, starts_with, map, any,
}
use raoffline_proxy.CacheKeys.{lower}
use raoffline_proxy.CacheKeys.Decimal.{decimal}
use raoffline_proxy.Json.{Json, obj, str, Codec, field_of, is_true, Fields}
use raoffline_proxy.Storage.{Award}
use raoffline_proxy.AwardSigning.{Crypto}
use raoffline_proxy.Server.{Server, HttpPost, answer, unreachable}
use raoffline_proxy.Flusher.Award.{build_award_request_body}

pub data Sent : Type 0 where
  success : Sent
  auth_error : Text → Sent
  network_error : Text → Sent
  -- an exception leaves the function
  raised : Sent

-- `part in s`
unfoldable pub contains : Text → Text → Bool
unfolding starts_with
contains part [] = is_empty part
contains part (c ∷ s) = starts_with (c ∷ s) part || contains part s

abbrev auth_words : List Text
auth_words = codes "invalid" ∷ codes "token" ∷ codes "credentials" ∷ codes "user" ∷ []

unfoldable pub is_auth_message : Text → Bool
unfolding contains lower any
is_auth_message message = any (λ word. contains word (lower message)) auth_words

-- `payload.get("Error") or "…"`: none if it is there and no text, which raises at `lower()`.
unfoldable pub error_message : Fields → Option Text
unfolding field_of is_true
error_message payload = elim (field_of (codes "Error") payload) [
  | none ↦ some (codes "Server returned Success:false")
  | some (str s) ↦ some (if is_empty s then codes "Server returned Success:false" else s)
  | some v ↦ if is_true v then none else some (codes "Server returned Success:false")
]

-- The verdict of the server's error message.
unfoldable pub failure_of : Fields → Sent
unfolding error_message is_auth_message
failure_of payload = elim (error_message payload) [
  | none ↦ raised
  | some message ↦ if is_auth_message message then auth_error message else network_error message
]

-- The body of a 2xx answer, as `json.loads` read it; a value that is no dict raises at `get`.
unfoldable pub read_answer : Option Json → Sent
unfolding failure_of
read_answer none = network_error (codes "Server returned invalid JSON")
read_answer (some (obj payload)) = elim (field_of (codes "Success") payload) [
  | none ↦ failure_of payload
  | some flag ↦ if is_true flag then success else failure_of payload
]
read_answer (some _) = raised

module _ (json : Codec) where
  -- The answer's status is read first, then its body.
  unfoldable pub classify : HttpPost → Sent
  unfolding read_answer
  classify unreachable = raised
  classify (answer status body) =
      if (status == 401) || (status == 403)
      then auth_error (codes "Token rejected by server (HTTP " ++ (decimal status ++ codes ")"))
      else if ltb status 200 || leb 300 status
      then network_error (codes "HTTP " ++ decimal status)
      else read_answer (json.loads body)

-- `proxy_user_agent(award["userAgent"] or FALLBACK_USER_AGENT)`; the two texts are configuration.
pub record UserAgents : Type 0 where
  pub fallback : Text
  pub tag : Text

unfoldable pub proxy_user_agent : UserAgents → Text → Text
proxy_user_agent u original = if contains u.tag original then original else original ++ 32 ∷ u.tag

module _ (json : Codec) (c : Crypto) (secret : Text) (md5_hex : Text → Text)
    (agents : UserAgents) where
  unfoldable pub send_award : Server → ℕ → Text → Award → Sent
  unfolding classify proxy_user_agent
  send_award server now token a =
      let original = if is_empty a.user_agent then agents.fallback else a.user_agent in
      elim (build_award_request_body c secret md5_hex a now (some token)) [
        | none ↦ raised
        | some body ↦
            classify json (server.award a.query_string body (proxy_user_agent agents original))
      ]
