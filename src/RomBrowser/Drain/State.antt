-- ===== src/RomBrowser/Drain/State.antt =====
-- What the loop over the queue of ROMs keeps and reads, and how it ends: `DrainStop`, `DrainResult` and the
-- variables of `_drain_locked` of linux/raofflineproxy/rom_browser.py.
use raoffline_proxy.Prelude.{
  ℕ, Bool, Option, List, [], ◌∷◌, ◌++◌, Text, if◌then◌else◌, text_eq, any,
}
use raoffline_proxy.Storage.{Store}
use raoffline_proxy.Server.{Server}
use raoffline_proxy.RomCache.Unlocks.{member}
use raoffline_proxy.CacheBudget.{budget_window}
use raoffline_proxy.CacheQueue.{QueuedRom}
use raoffline_proxy.RomBrowser.{QueuedRomOutcome}

-- CACHE_BURST_GAMES
abbrev pub burst_games : ℕ
burst_games = 20

-- CACHE_BATCH_MAX_MS
abbrev pub batch_max : ℕ
batch_max = budget_window

pub data DrainStop : Type 0 where
  empty budget_exhausted rate_limited paused failed auth_rejected busy : DrainStop

pub record DrainResult : Type 0 where
  pub cached : ℕ
  pub no_match : ℕ
  pub stop : DrainStop
  pub next_attempt_at : Option ℕ
  pub time_limited : Bool

-- A call of `on_outcome`, without its message.
pub record Report : Type 0 where
  pub rom : QueuedRom
  pub outcome : QueuedRomOutcome
  pub game_id : Option ℕ

-- The variables of the loop. `keys` are the pending keys, if keys are given.
pub record Drain : Type 0 where
  pub store : Store
  pub cached : ℕ
  pub no_match : ℕ
  pub requested : ℕ
  pub paced : Bool
  pub known_game_ids : List ℕ
  pub keys : Option (List Text)
  pub reported : List Report

-- What a turn reads from outside: whether it should pause; `rate_limit.paused_until` before and after a
-- ROM is cached; the clock until then and from then on; RetroAchievements; and the store that the
-- wait for the pace leaves behind while others may drain, with false if the wait is cut off.
pub record Turn : Type 0 where
  pub should_pause : Bool
  pub limited : Option ℕ
  pub now : ℕ
  pub server : Server
  pub later : ℕ
  pub limited_later : Option ℕ
  pub waited : Store → Store × Bool

-- `list(dict.fromkeys(keys))`, after the keys that are taken.
unfoldable pub first_keys : List Text → List Text → List Text
unfolding any
first_keys taken [] = taken
first_keys taken (k ∷ ks) =
    first_keys (if any (λ j. text_eq j k) taken then taken else taken ++ k ∷ []) ks

-- `known.update(ids)`
unfoldable pub add_ids : List ℕ → List ℕ → List ℕ
add_ids known [] = known
add_ids known (n ∷ ns) = add_ids (if member n known then known else known ++ n ∷ []) ns

unfoldable pub result : Drain → DrainStop → Option ℕ → Bool → DrainResult
result d stop next_attempt_at time_limited = record {
  cached = d.cached;
  no_match = d.no_match;
  stop = stop;
  next_attempt_at = next_attempt_at;
  time_limited = time_limited;
}

unfoldable pub report : QueuedRom → QueuedRomOutcome → Option ℕ → Drain → Drain
report rom outcome game d = record d {
  reported = d.reported ++ record { rom = rom; outcome = outcome; game_id = game } ∷ [];
}

-- How a turn ends: the loop goes on, or returns.
abbrev pub Turned : Type 0
Turned = Drain × Option DrainResult
