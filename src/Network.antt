-- ===== src/Network.antt =====
-- How requests reach RetroAchievements: linux/raofflineproxy/network.py. Times are milliseconds; the
-- monotonic clock stands at 0 only before the first request. TLS, charsets and logging are left out.
pub mod Headers
pub mod Retries
pub mod Probe
use raoffline_proxy.Prelude.{
  ℕ, zero, suc, ◌+◌, ◌-◌, ◌*◌, ◌^◌, min, max, Bool, true, false, ◌&&◌, ◌||◌, not, Option, none,
  some, List, ◌∷◌, Text, ltb, leb, ◌==◌, if◌then◌else◌, is_some,
}
use raoffline_proxy.CacheKeys.{strip}
use raoffline_proxy.CacheKeys.Decimal.{is_digits, int_of}
use raoffline_proxy.Server.{HttpGet, HttpPost}
use raoffline_proxy.RateLimit.{RateLimit, in_background, on_rate_limited, paused_until_at}

-- REACHABILITY_INTERVAL_SECONDS
abbrev pub reachability_interval : ℕ
reachability_interval = 30000

-- PROBE_ATTEMPTS
abbrev pub probe_attempts : ℕ
probe_attempts = 3

abbrev pub http_too_many_requests : ℕ
http_too_many_requests = 429

-- HTTP_GET_MAX_429_RETRIES
abbrev pub max_429_retries : ℕ
max_429_retries = 4

-- HTTP_GET_INITIAL_429_BACKOFF_SECONDS and HTTP_GET_MAX_429_BACKOFF_SECONDS
abbrev pub initial_429_backoff : ℕ
initial_429_backoff = 2000

abbrev pub max_429_backoff : ℕ
max_429_backoff = 15000

-- RA_MIN_REQUEST_INTERVAL_SECONDS
abbrev pub min_request_interval : ℕ
min_request_interval = 300

pub record ReachabilityTracker : Type 0 where
  pub reachable : Bool
  pub checked_at : ℕ

unfoldable pub mark : Bool → ℕ → ReachabilityTracker → ReachabilityTracker
mark reachable checked_at r = record { reachable = reachable; checked_at = checked_at }

-- `self._reachable != reachable`
unfoldable pub mark_changes : Bool → ReachabilityTracker → Bool
mark_changes reachable r = if reachable then not r.reachable else r.reachable

unfoldable pub should_probe : Bool → ℕ → ReachabilityTracker → Bool
should_probe force now r =
    force
    || ((r.checked_at == 0) || (not r.reachable || leb reachability_interval (now - r.checked_at)))

-- `RequestThrottle.wait`: how long it sleeps, where the last request was at `last`.
unfoldable pub throttle_delay : ℕ → ℕ → ℕ
throttle_delay last now = min_request_interval - (now - last)

-- The globals of the module and of rate_limit.py (`last_request` is that of the throttle), the requests
-- that were sent, how long was slept after each 429, and how long at the throttle; the latest time stands
-- first.
pub record Network : Type 0 where
  pub tracker : ReachabilityTracker
  pub rate : RateLimit
  pub last_request : ℕ
  pub sent : ℕ
  pub slept : List ℕ
  pub throttled : List ℕ

-- What a request meets: a response, whose body may not be text; an error status, with its header
-- Retry-After; or no answer.
pub data Answer : Type 0 where
  response : Option Text → Answer
  http_error : ℕ → Option Text → Answer
  unreachable : Answer

-- An attempt: the wall clock at its start and at its end, the monotonic clock before and behind the
-- throttle and at its end, and the answer.
pub record Attempt : Type 0 where
  pub started : ℕ
  pub throttle_at : ℕ
  pub throttled_at : ℕ
  pub clock : ℕ
  pub checked_at : ℕ
  pub answer : Answer

-- How `http_get` returns, or what it raises; the last one is the error behind the loop.
pub data Got : Type 0 where
  body : Text → Got
  http_status : ℕ → Got
  no_connection : Got
  rate_limited : Got
  loop_exceeded : Got

-- What the callers see of it.
unfoldable pub as_answer : Got → HttpGet
as_answer (body text) = HttpGet.body text
as_answer (http_status code) = HttpGet.http_error code
as_answer _ = HttpGet.failed

-- The seconds of the header, if it is a number.
unfoldable pub header_seconds : Option Text → Option ℕ
unfolding strip
header_seconds none = none
header_seconds (some value) = if is_digits (strip value) then some (int_of (strip value)) else none

unfoldable pub retry_after_header_millis : Option Text → Option ℕ
unfolding header_seconds
retry_after_header_millis header = elim (header_seconds header) [
  | none ↦ none
  | some seconds ↦ some (seconds * 1000)
]

unfoldable pub retry_after_seconds : Option Text → ℕ → ℕ
unfolding header_seconds
retry_after_seconds header attempt =
    let backoff = min (initial_429_backoff * 2 ^ attempt) max_429_backoff in
    elim (header_seconds header) [
      | none ↦ backoff
      | some seconds ↦ if ltb 0 seconds then min (seconds * 1000) max_429_backoff else backoff
    ]

unfoldable pub count_sent : Network → Network
count_sent n = record n { sent = n.sent + 1 }

unfoldable pub mark_network : Bool → ℕ → Network → Network
unfolding mark
mark_network reachable checked_at n = record n { tracker = mark reachable checked_at n.tracker }

unfoldable pub note_429 : Option Text → ℕ → Network → Network
unfolding on_rate_limited retry_after_header_millis
note_429 header clock n = record n {
  rate = on_rate_limited (retry_after_header_millis header) clock n.rate;
}

unfoldable pub sleep : ℕ → Network → Network
sleep time n = record n { slept = time ∷ n.slept }

-- `RequestThrottle.wait`
unfoldable pub wait : Attempt → Network → Network
unfolding throttle_delay
wait a n =
    let delay = throttle_delay n.last_request a.throttle_at in
    record n {
      last_request = a.throttled_at;
      throttled = if ltb 0 delay then delay ∷ n.throttled else n.throttled;
    }

-- Only a request of the API, which names an action, waits.
unfoldable pub wait_if_api : Bool → Attempt → Network → Network
unfolding wait
wait_if_api is_api a n = if is_api then wait a n else n

-- After an attempt: the next one is left to do, or the loop ends.
unfoldable pub http_answer :
    ℕ → ℕ → Attempt → Answer → Network → (Network → Network × Got) → Network × Got
unfolding mark_network note_429 sleep
http_answer attempt left a (response (some text)) n next =
    (mark_network true a.checked_at n, body text)
http_answer attempt left a (response none) n next =
    (mark_network false a.checked_at n, no_connection)
http_answer attempt left a unreachable n next = (mark_network false a.checked_at n, no_connection)
http_answer attempt left a (http_error code header) n next =
    let marked = mark_network (ltb code 500) a.checked_at n in
    let noted = note_429 header a.clock marked in
    if code == http_too_many_requests
    then elim left [
      | zero ↦ (noted, http_status code)
      | suc l ↦ next (sleep (retry_after_seconds header attempt) noted)
    ]
    else (marked, http_status code)

-- `is_api`: the URL names an action of the API.
module _ (is_api : Bool) (attempts : ℕ → Attempt) where
  -- One turn of the loop: in the background, a pause ends it before a request.
  unfoldable pub attempt_once : ℕ → ℕ → Network → (Network → Network × Got) → Network × Got
  unfolding http_answer wait_if_api count_sent in_background paused_until_at
  attempt_once attempt left n next =
      let a = attempts attempt in
      let asked = http_answer attempt left a a.answer (count_sent (wait_if_api is_api a n)) next in
      if in_background n.rate && is_some (paused_until_at n.rate a.started)
      then (n, rate_limited)
      else asked

  -- The loop from an attempt on, with so many attempts left behind it.
  unfoldable pub http_get_from : ℕ → ℕ → Network → Network × Got
  unfolding attempt_once
  http_get_from attempt zero n = attempt_once attempt zero n λ n'. (n', loop_exceeded)
  http_get_from attempt (suc left) n =
      attempt_once attempt (suc left) n λ n'. http_get_from (attempt + 1) left n'

  unfoldable pub http_get : Network → Network × Got
  unfolding http_get_from in_background
  http_get n = http_get_from 0 (if in_background n.rate then 0 else max_429_retries) n

-- `http_post` sends once; the body of an error status is returned as well.
pub data PostAnswer : Type 0 where
  response : ℕ → Option Text → PostAnswer
  http_error : ℕ → Option Text → PostAnswer
  unreachable : PostAnswer

-- An error body that is not text raises without a mark of its own.
unfoldable pub http_post : PostAnswer → ℕ → Network → Network × HttpPost
unfolding count_sent mark_network
http_post (PostAnswer.response status (some text)) checked_at n =
    (mark_network true checked_at (count_sent n), HttpPost.answer status text)
http_post (PostAnswer.response status none) checked_at n =
    (mark_network false checked_at (count_sent n), HttpPost.unreachable)
http_post (PostAnswer.http_error code (some text)) checked_at n =
    (mark_network (ltb code 500) checked_at (count_sent n), HttpPost.answer code text)
http_post (PostAnswer.http_error code none) checked_at n =
    (mark_network (ltb code 500) checked_at (count_sent n), HttpPost.unreachable)
http_post PostAnswer.unreachable checked_at n =
    (mark_network false checked_at (count_sent n), HttpPost.unreachable)

-- The requests of a probe, up to the first one that is answered with a status of 200 to 499; `none` stands
-- for no answer. How many were sent, and whether one was answered so.
unfoldable pub head_upstream : (ℕ → Option ℕ) → ℕ → ℕ → ℕ × Bool
head_upstream heads attempt zero = (0, false)
head_upstream heads attempt (suc left) =
    let rest = head_upstream heads (attempt + 1) left in
    elim (heads attempt) [
      | none ↦ (rest.0 + 1, rest.1)
      | some status ↦ if leb 200 status && ltb status 500 then (1, true) else (rest.0 + 1, rest.1)
    ]

-- The tracker after the probe, how many requests it sent, and its answer.
unfoldable pub probe_retroachievements :
    Bool → ℕ → Bool → (ℕ → Option ℕ) → ReachabilityTracker → ReachabilityTracker × ℕ × Bool
unfolding should_probe head_upstream mark
probe_retroachievements force now active heads r =
    let asked = head_upstream heads 0 (if force then probe_attempts else 1) in
    if not (should_probe force now r)
    then (r, 0, r.reachable)
    else if not active
    then (mark false now r, 0, false)
    else (mark asked.1 now r, asked.0, asked.1)
