-- ===== src/RateLimit.antt =====
-- linux/raofflineproxy/rate_limit.py: the pause after a 429, and the depth of background work.
use raoffline_proxy.Prelude.{
  ℕ, ◌+◌, ◌-◌, ◌≤◌, ◌<◌, ◌≡◌, refl, max, Bool, true, Option, none, some, ltb, if◌then◌else◌, get_or,
  arith,
}

-- RATE_LIMIT_PAUSE_MS
abbrev pub rate_limit_pause : ℕ
rate_limit_pause = 600000

-- The module's globals, as one thread sees them.
pub record RateLimit : Type 0 where
  pub paused_until : ℕ
  pub depth : ℕ

unfoldable pub in_background : RateLimit → Bool
in_background r = ltb 0 r.depth

-- The two halves of the context manager `background`.
unfoldable pub enter : RateLimit → RateLimit
enter r = record r { depth = r.depth + 1 }

unfoldable pub exit : RateLimit → RateLimit
exit r = record r { depth = r.depth - 1 }

unfoldable pub on_rate_limited : Option ℕ → ℕ → RateLimit → RateLimit
on_rate_limited retry_after now r = record r {
  paused_until = max r.paused_until (now + max rate_limit_pause (get_or retry_after 0));
}

unfoldable pub paused_until_at : RateLimit → ℕ → Option ℕ
paused_until_at r now = if ltb now r.paused_until then some r.paused_until else none

-- After a 429 the work is paused for at least ten minutes and for as long as the server asks, an
-- earlier and longer pause stays, and the depth of background work is untouched.
pub on_rate_limited-pauses :
    (r : RateLimit) (retry_after : Option ℕ) (now t : ℕ)
    → t < now + max rate_limit_pause (get_or retry_after 0)
    → let r' = on_rate_limited retry_after now r in
      (paused_until_at r' t ≡ some r'.paused_until)
      × (now + rate_limit_pause ≤ r'.paused_until)
      × (now + get_or retry_after 0 ≤ r'.paused_until)
      × (r.paused_until ≤ r'.paused_until)
      × (r'.depth ≡ r.depth)
unfolding on_rate_limited paused_until_at
on_rate_limited-pauses r retry_after now t h =
    (ground arith, omega arith, omega arith, omega arith, refl)

-- The pause is over from its end on.
pub paused_until_at-over : (r : RateLimit) (t : ℕ) → r.paused_until ≤ t → paused_until_at r t ≡ none
unfolding paused_until_at
paused_until_at-over r t h = ground arith

-- Inside a `background` block the thread is in the background, and the block restores the depth,
-- also where it is nested and a 429 comes in between.
pub background-restores :
    (r : RateLimit) (retry_after : Option ℕ) (now : ℕ)
    → (in_background (enter r) ≡ true)
      × (exit (on_rate_limited retry_after now (enter r)) ≡ on_rate_limited retry_after now r)
unfolding in_background enter exit on_rate_limited
background-restores r retry_after now = (ground arith, ground arith)
