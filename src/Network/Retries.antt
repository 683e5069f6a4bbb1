-- ===== src/Network/Retries.antt =====
-- `http_get` of linux/raofflineproxy/network.py: how often it sends, how long it sleeps, and what it marks.
use raoffline_proxy.Prelude.{
  List, ◌++◌, length, All, ℕ, ◌+◌, ◌≤◌, ◌≡◌, Bool, true, false, ltb, if◌then◌else◌,
}
use raoffline_proxy.RateLimit.{in_background}
use raoffline_proxy.Network.{
  Network, Attempt, Got, body, http_status, no_connection, rate_limited, loop_exceeded,
}

-- The error behind the loop.
abbrev pub is_exceeded : Got → Bool
is_exceeded loop_exceeded = true
is_exceeded _ = false

-- What a result says of the state that it leaves.
abbrev pub Marked : Got → Network → Type 0
Marked (body text) n = n.tracker.reachable ≡ true
Marked (http_status code) n = n.tracker.reachable ≡ ltb code 500
Marked no_connection n = n.tracker.reachable ≡ false
Marked rate_limited n = in_background n.rate ≡ true
Marked loop_exceeded n = Unit

-- So many sleeps at most were added before the old ones, each of them no longer than the bound.
abbrev pub Sleeps : ℕ → ℕ → List ℕ → List ℕ → Type 0
Sleeps bound count after before =
    (times : List ℕ) × (after ≡ times ++ before)
    × (length times ≤ count)
    × All (λ t. t ≤ bound) times

-- At most so many requests are sent from `n` on, with at most 300 milliseconds at the throttle before each
-- of them, and so many sleeps of at most 15 seconds between them.
pub record Ends (requests : ℕ) (sleeps : ℕ) (n : Network) (result : Network × Got) : Type 0 where
  pub returns : is_exceeded result.1 ≡ false
  pub sent : result.0.sent ≤ n.sent + requests
  pub slept : Sleeps 15000 sleeps result.0.slept n.slept
  pub throttled : Sleeps 300 requests result.0.throttled n.throttled
  pub marked : Marked result.1 result.0

module _ (is_api : Bool) (attempts : ℕ → Attempt) where
  -- The requests that `http_get` may send again: none in the background.
  abbrev pub retries : Network → ℕ
  retries n = if in_background n.rate then 0 else 4
