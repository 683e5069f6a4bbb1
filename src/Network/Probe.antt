-- ===== src/Network/Probe.antt =====
-- The probe of linux/raofflineproxy/network.py.
use raoffline_proxy.Prelude.{ℕ, zero, suc, ◌+◌, ◌≤◌, ◌≡◌, Bool, Option, arith, if◌then◌else◌}
use raoffline_proxy.Network.{
  ReachabilityTracker, probe_attempts, mark, head_upstream, probe_retroachievements,
}

head_upstream-le :
    (heads : ℕ → Option ℕ) (attempt left : ℕ) → (head_upstream heads attempt left).0 ≤ left
unfolding head_upstream
head_upstream-le heads attempt zero = omega arith
head_upstream-le heads attempt (suc left) =
    ground (arith, head_upstream-le heads (attempt + 1) left)

-- The answer of a probe is what is stored as reachable afterwards, whether it asked or not; a forced one
-- sends at most three requests, another at most one, and none without an active interface.
pub probe_lem :
    (force : Bool) (now : ℕ) (active : Bool) (heads : ℕ → Option ℕ) (r : ReachabilityTracker)
    → let (r', sent, reachable) = probe_retroachievements force now active heads r in
      (r'.reachable ≡ reachable)
      × (sent ≤ (if active then (if force then probe_attempts else 1) else 0))
unfolding probe_retroachievements mark
probe_lem force now active heads r = (
  ground arith,
  ground (arith, head_upstream-le heads 0 probe_attempts, head_upstream-le heads 0 1),
)
