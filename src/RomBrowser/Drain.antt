-- ===== src/RomBrowser/Drain.antt =====
-- Working through the queue of ROMs: `drain_cache_queue`, `_drain_locked` and `past_burst` of
-- linux/raofflineproxy/rom_browser.py. The loop takes what it reads from outside from a list, one
-- element in each turn. How long it waits for its pace, the progress and the messages are left out.
pub mod State
pub mod Ends
pub mod Within
pub mod Budget
pub mod Queue
use raoffline_proxy.Prelude.{
  ℕ, suc, ◌+◌, Bool, true, false, ◌&&◌, ◌||◌, not, Option, none, some, List, [], ◌∷◌, ◌++◌, Text,
  ltb, leb, ◌==◌, if◌then◌else◌, text_eq, any,
}
use raoffline_proxy.Json.{Json, Codec}
use raoffline_proxy.Storage.{Store}
use raoffline_proxy.Auth.{Credentials}
use raoffline_proxy.Server.{Server}
use raoffline_proxy.RomCache.Unlocks.{member}
use raoffline_proxy.CacheBudget.{
  budget_window, charge_game, pause_until, used_now, remaining_now, next_available_at_now,
}
use raoffline_proxy.CacheQueue.{QueuedRom, get, oldest, remove, queued_count}
use raoffline_proxy.RomBrowser.{
  LocalGameIdAnswer, unanswered, answered, QueuedRomOutcome, cached, already_cached,
  cached_game_ids, local_game_id_answer,
}
use raoffline_proxy.RomBrowser.Caching.{
  Handled, remember_source_rom_path, cache_queued_rom, record_failed_attempt,
}
use raoffline_proxy.RomBrowser.Drain.State.{
  burst_games, batch_max, DrainStop, empty, budget_exhausted, rate_limited, paused, failed,
  auth_rejected, busy, DrainResult, Report, Drain, Turn, Turned, first_keys, add_ids, result,
  report,
}

module _ (json : Codec) (show : Json → Text) where
  -- `next_rom` where keys are given: keys that wait no more are dropped.
  unfoldable pub next_of_keys : List Text → Store → List Text × Option QueuedRom
  unfolding get
  next_of_keys [] s = ([], none)
  next_of_keys (k ∷ ks) s =
      let rest = next_of_keys ks s in
      elim (get json show s k) [ none ↦ rest | some rom ↦ (k ∷ ks, some rom) ]

  -- The search has enough fuel.
  unfoldable pub next_oldest : Store → Store × Option QueuedRom
  unfolding oldest queued_count
  next_oldest s = elim (oldest json show (suc (queued_count s)) s) [
    | none ↦ (s, none)
    | some found ↦ found
  ]

  unfoldable pub next_rom : Drain → Drain × Option QueuedRom
  unfolding next_of_keys next_oldest
  next_rom d = elim d.keys [
    | none ↦ let found = next_oldest d.store in (record d { store = found.0 }, found.1)
    | some ks ↦ let found = next_of_keys ks d.store in (record d { keys = some found.0 }, found.1)
  ]

  unfoldable pub past_burst : Store → ℕ → ℕ → Bool
  unfolding used_now
  past_burst s requested now = leb burst_games requested || leb burst_games (used_now json s now)

  -- A 429 pauses the budget and ends the drain.
  unfoldable pub rate_limited_at : ℕ → ℕ → Drain → Turned
  unfolding pause_until result
  rate_limited_at clock until d = (
    record d { store = pause_until json clock until d.store },
    some (result d rate_limited (some until) false),
  )

  -- What an outcome changes.
  unfoldable pub settle : ℕ → QueuedRom → Option ℕ → QueuedRomOutcome → Drain → Turned
  unfolding remove report record_failed_attempt result add_ids
  settle clock rom game QueuedRomOutcome.auth_rejected d =
      (d, some (result d auth_rejected none false))
  settle clock rom game QueuedRomOutcome.failed d = (
    report rom QueuedRomOutcome.failed game
        (record d { store = record_failed_attempt json show clock rom d.store }),
    some (result d DrainStop.failed none false),
  )
  settle clock rom game QueuedRomOutcome.cached d = (
    report rom QueuedRomOutcome.cached game (record d {
      store = remove rom d.store;
      cached = d.cached + 1;
      known_game_ids = elim game [
        | none ↦ d.known_game_ids
        | some n ↦ add_ids d.known_game_ids (n ∷ [])
      ];
    }),
    none,
  )
  settle clock rom game QueuedRomOutcome.no_match d = (
    report rom QueuedRomOutcome.no_match game
        (record d { store = remove rom d.store; no_match = d.no_match + 1 }),
    none,
  )
  settle clock rom game QueuedRomOutcome.already_cached d = (
    report rom QueuedRomOutcome.already_cached game (record d { store = remove rom d.store }),
    none,
  )

  -- `if outcome is QueuedRomOutcome.CACHED: cache_budget.charge_game(storage)`
  unfoldable pub charge_cached : ℕ → QueuedRomOutcome → Store → Store
  unfolding charge_game
  charge_cached clock QueuedRomOutcome.cached s = charge_game json clock clock s
  charge_cached clock _ s = s

  unfoldable pub after_caching : Turn → QueuedRom → Drain → Handled → Turned
  unfolding charge_cached rate_limited_at settle
  after_caching t rom d handled =
      let charged = record d { store = charge_cached t.later handled.outcome handled.store } in
      elim t.limited_later [
        | some until ↦ rate_limited_at t.later until charged
        | none ↦ settle t.later rom handled.game_id handled.outcome charged
      ]

  module _ (creds : Credentials) where
    -- RetroAchievements has to be asked about the ROM, and the budget allows it.
    unfoldable pub request_rom : Turn → QueuedRom → LocalGameIdAnswer → Drain → Turned
    unfolding after_caching cache_queued_rom
    request_rom t rom local d =
        after_caching t rom (record d { paced = false; requested = d.requested + 1 })
          (cache_queued_rom json t.server creds t.later rom d.known_game_ids local d.store)

    -- The wait for the pace.
    unfoldable pub go_ahead : Drain → Store × Bool → Turned
    unfolding cached_game_ids add_ids result
    go_ahead d (s, false) = (record d { store = s }, some (result d paused none false))
    go_ahead d (s, true) = (
      record d {
        store = s;
        known_game_ids = add_ids d.known_game_ids (cached_game_ids s);
        paced = true;
      },
      none,
    )

    unfoldable pub within_budget : Turn → QueuedRom → LocalGameIdAnswer → Drain → Turned
    unfolding remaining_now next_available_at_now result past_burst request_rom go_ahead
    within_budget t rom local d =
        if remaining_now json d.store t.now == 0
        then (
          d,
          some (result d budget_exhausted (some (next_available_at_now json d.store t.now)) false),
        )
        else if ltb 0 d.requested && (not d.paced && past_burst d.store d.requested t.now)
        then go_ahead d (t.waited d.store)
        else request_rom t rom local d

    -- The next ROM is there.
    unfoldable pub handle_rom : Turn → QueuedRom → LocalGameIdAnswer → Drain → Turned
    unfolding remove report remember_source_rom_path within_budget
    handle_rom t rom LocalGameIdAnswer.no_match d = (
      report rom QueuedRomOutcome.no_match none
          (record d { store = remove rom d.store; no_match = d.no_match + 1 }),
      none,
    )
    handle_rom t rom unanswered d = within_budget t rom unanswered d
    handle_rom t rom (answered game hash) d =
        if member game d.known_game_ids
        then (
          report rom QueuedRomOutcome.already_cached (some game) (record d {
            store =
                remove rom
                  (remember_source_rom_path t.now game creds.user rom.source_rom_path d.store);
          }),
          none,
        )
        else within_budget t rom (answered game hash) d

    unfoldable pub handle_next : Turn → Drain × Option QueuedRom → Turned
    unfolding result handle_rom local_game_id_answer
    handle_next t (d, none) = (d, some (result d empty none false))
    handle_next t (d, some rom) =
        handle_rom t rom (local_game_id_answer json d.store (rom.hash ∷ rom.more_hashes) t.now) d

    -- One turn of the loop. The drain started `batch_max` before `stop_at`.
    unfoldable pub turn : ℕ → Turn → Drain → Turned
    unfolding result rate_limited_at next_available_at_now next_rom handle_next
    turn stop_at t d =
        if t.should_pause then (d, some (result d paused none false)) else elim t.limited [
          | some until ↦ rate_limited_at t.now until d
          | none ↦
              if leb stop_at t.now
              then (
                d,
                some (
                    result d budget_exhausted (some (next_available_at_now json d.store t.now))
                      true),
              )
              else handle_next t (next_rom d)
        ]

    -- What is left to do after a turn. `none`: the turns are used up.
    unfoldable pub go_on :
        (Drain → Option (Drain × DrainResult)) → Turned → Option (Drain × DrainResult)
    go_on rest (d, none) = rest d
    go_on rest (d, some r) = some (d, r)

    unfoldable pub turns : ℕ → List Turn → Drain → Option (Drain × DrainResult)
    unfolding go_on turn
    turns stop_at [] d = none
    turns stop_at (t ∷ later) d = go_on (turns stop_at later) (turn stop_at t d)

    unfoldable pub start : Option (List Text) → Store → Drain
    unfolding cached_game_ids
    start keys s = record {
      store = s;
      cached = 0;
      no_match = 0;
      requested = 0;
      paced = false;
      known_game_ids = cached_game_ids s;
      keys = keys;
      reported = [];
    }

    unfoldable pub drain_locked :
        ℕ → List Turn → Option (List Text) → Store → Option (Drain × DrainResult)
    unfolding turns start
    drain_locked started_at outside keys s = turns (started_at + batch_max) outside (start keys s)

    -- Only one caller drains at a time: `locked` tells whether it is this one.
    unfoldable pub drain_cache_queue :
        Bool → ℕ → List Turn → Option (List Text) → Store → Option (Drain × DrainResult)
    unfolding drain_locked start result first_keys
    drain_cache_queue locked started_at outside keys s =
        let unique : Option (List Text) = elim keys [
          | none ↦ none
          | some ks ↦ some (first_keys [] ks)
        ] in
        if locked
        then drain_locked started_at outside unique s
        else some (start keys s, result (start keys s) busy none false)
