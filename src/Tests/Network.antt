-- ===== src/Tests/Network.antt =====
-- Requests that are sent again, and the headers that are forwarded.
use raoffline_proxy.Prelude.{
  ℕ, zero, suc, ◌≡◌, ◌≤◌, true, false, Option, none, some, List, [], ◌∷◌, codes, any, keep, All,
  not, if◌then◌else◌,
}
use raoffline_proxy.Network.{
  Network, Attempt, http_error, response, probe_retroachievements, probe_attempts,
}
use raoffline_proxy.Network.Probe.{probe_lem}
use raoffline_proxy.Network.Headers.{
  Header, build_forward_headers, is_connection, is_user_agent, is_other, build_forward_headers_lem,
}
use raoffline_proxy.Tests.Data.{agents}

abbrev fresh : Network
fresh = record {
  tracker = record { reachable = false; checked_at = 0 };
  rate = record { paused_until = 0; depth = 0 };
  last_request = 0;
  sent = 0;
  slept = [];
  throttled = [];
}

-- The first request meets a 429, the second one is answered.
abbrev twice : ℕ → Attempt
twice zero = record {
  started = 5;
  throttle_at = 5;
  throttled_at = 305;
  clock = 10;
  checked_at = 10;
  answer = http_error 429 (some (codes "3"));
}
twice (suc n) = record {
  started = 15;
  throttle_at = 3500;
  throttled_at = 3500;
  clock = 20;
  checked_at = 20;
  answer = response (some (codes "{}"));
}

abbrev no_head : ℕ → Option ℕ
no_head n = none

probe_lem_example :
    let (r', sent, reachable) = probe_retroachievements true 50 true no_head fresh.tracker in
    (r'.reachable ≡ reachable) × (sent ≤ (if true then (if true then probe_attempts else 1) else 0))
probe_lem_example = probe_lem true 50 true no_head fresh.tracker

abbrev headers : List Header
headers =
    (codes "Host", codes "ra")
    ∷ (codes "USER-AGENT", codes "RetroArch")
    ∷ (codes "X", codes "y")
    ∷ []

build_forward_headers_lem_example :
    let forwarded = build_forward_headers agents headers in
    All (λ h. is_connection h ≡ false) forwarded
    × (any is_user_agent forwarded ≡ true)
    × (keep is_other forwarded ≡ keep is_other (keep (λ h. not (is_connection h)) headers))
build_forward_headers_lem_example = build_forward_headers_lem agents headers
