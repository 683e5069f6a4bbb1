-- ===== src/RomBrowser/Drain/Budget.antt =====
-- A drain of linux/raofflineproxy/rom_browser.py keeps to the budget of cached games.
use raoffline_proxy.Prelude.{
  ℕ, ◌+◌, ◌≤◌, ◌<◌, ◌≡◌, refl, ◌∙◌, subst, Bool, true, false, ◌==◌, Option, none, some, List, [],
  ◌∷◌, Text, arith, leb, ltb, Bool-cases, Option-cases, if-both, ◌&&◌, not, inl, inr,
}
use raoffline_proxy.CacheKeys.{cache_budget_key}
use raoffline_proxy.Json.{Json, Codec}
use raoffline_proxy.Storage.{Store}
use raoffline_proxy.Auth.{Credentials}
use raoffline_proxy.RomCache.Unlocks.{member}
use raoffline_proxy.CacheBudget.{
  budget_limit, budget_window, charge, load, charge_game, remaining_now,
}
use raoffline_proxy.CacheBudget.Stored.{load-save}
use raoffline_proxy.CacheQueue.{QueuedRom, remove}
use raoffline_proxy.RomBrowser.{LocalGameIdAnswer, unanswered, answered, QueuedRomOutcome}
use raoffline_proxy.RomBrowser.Caching.{Handled, cache_queued_rom, remember_source_rom_path}
use raoffline_proxy.RomBrowser.Frame.{remember-frame}
use raoffline_proxy.RomBrowser.Frame.Caching.{cache_queued_rom-frame}
use raoffline_proxy.RomBrowser.Drain.{
  go_on, turn, turns, rate_limited_at, start, drain_locked, settle, charge_cached, after_caching,
  request_rom, go_ahead, within_budget, handle_rom, handle_next, next_rom, past_burst,
}
use raoffline_proxy.RomBrowser.Drain.State.{Drain, DrainResult, Turn, Turned, batch_max, report}
use raoffline_proxy.RomBrowser.Drain.Within.{
  IsWithin, charge-IsWithin, later-IsWithin, budget-IsForeign, SameBudget, remove-SameBudget,
  load-same, pause-IsWithin, same-IsWithin, failed-SameBudget, next-SameBudget,
}

module _ (json : Codec) (show : Json → Text) where
  settle-SameBudget :
      (clock : ℕ) (rom : QueuedRom) (game : Option ℕ) (outcome : QueuedRomOutcome) (d : Drain)
      → SameBudget (settle json show clock rom game outcome d).0.store d.store
  unfolding settle report
  settle-SameBudget clock rom game QueuedRomOutcome.auth_rejected d = refl
  settle-SameBudget clock rom game QueuedRomOutcome.failed d =
      failed-SameBudget json show clock rom d.store
  settle-SameBudget clock rom game QueuedRomOutcome.cached d = remove-SameBudget rom d.store
  settle-SameBudget clock rom game QueuedRomOutcome.no_match d = remove-SameBudget rom d.store
  settle-SameBudget clock rom game QueuedRomOutcome.already_cached d = remove-SameBudget rom d.store

  charged-IsWithin :
      (time now later : ℕ) (outcome : QueuedRomOutcome) (s s' : Store)
      → time ≤ now
      → now ≤ later
      → 0 < remaining_now json s now
      → SameBudget s' s
      → IsWithin time (load json s)
      → IsWithin later (load json (charge_cached json show later outcome s'))
  unfolding charge_cached
  charged-IsWithin time now later QueuedRomOutcome.cached s s' a b left e h =
      unfold charge_game in
      rw (load-save json later (charge (load json s') later 1 budget_window) s') (
        charge-IsWithin (load json s') time now later a b
          (rw (load-same json s' s e) (unfold remaining_now in left))
          (same-IsWithin json time s' s e h))
  charged-IsWithin time now later QueuedRomOutcome.no_match s s' a b left e h =
      later-IsWithin time later (load json s') (omega arith) (same-IsWithin json time s' s e h)
  charged-IsWithin time now later QueuedRomOutcome.already_cached s s' a b left e h =
      later-IsWithin time later (load json s') (omega arith) (same-IsWithin json time s' s e h)
  charged-IsWithin time now later QueuedRomOutcome.failed s s' a b left e h =
      later-IsWithin time later (load json s') (omega arith) (same-IsWithin json time s' s e h)
  charged-IsWithin time now later QueuedRomOutcome.auth_rejected s s' a b left e h =
      later-IsWithin time later (load json s') (omega arith) (same-IsWithin json time s' s e h)

  -- The window before a ROM is cached, of which something remains, and after its outcome.
  after-IsWithin :
      (time : ℕ) (t : Turn) (rom : QueuedRom) (d : Drain) (handled : Handled)
      → time ≤ t.now
      → t.now ≤ t.later
      → 0 < remaining_now json d.store t.now
      → SameBudget handled.store d.store
      → IsWithin time (load json d.store)
      → IsWithin t.later (load json (after_caching json show t rom d handled).0.store)
  unfolding after_caching
  after-IsWithin time t rom d handled a b left e h =
      let charged =
        charged-IsWithin time t.now t.later handled.outcome d.store handled.store a b left e h in
      let d' : Drain = record d {
        store = charge_cached json show t.later handled.outcome handled.store;
      } in
      elim (Option-cases t.limited_later) [
        | inr (until, limited) ↦
            rw (limited, after_caching)
              (unfold rate_limited_at in pause-IsWithin json t.later t.later until d'.store charged)
        | inl free ↦
            rw (free, after_caching)
              (same-IsWithin json t.later _ d'.store
                (settle-SameBudget t.later rom handled.game_id handled.outcome d') charged)
      ]

  module _ (creds : Credentials) where
    request-IsWithin :
        (time : ℕ) (t : Turn) (rom : QueuedRom) (local : LocalGameIdAnswer) (d : Drain)
        → time ≤ t.now
        → t.now ≤ t.later
        → 0 < remaining_now json d.store t.now
        → IsWithin time (load json d.store)
        → IsWithin t.later (load json (request_rom json show creds t rom local d).0.store)
    unfolding request_rom
    request-IsWithin time t rom local d a b left h =
        after-IsWithin time t rom (record d { paced = false; requested = d.requested + 1 })
          (cache_queued_rom json t.server creds t.later rom d.known_game_ids local d.store) a b left
          (cache_queued_rom-frame cache_budget_key budget-IsForeign json t.server creds t.later rom
            d.known_game_ids local d.store)
          h

    -- Who drains while this drain waits keeps to the budget as well.
    abbrev pub KeepsBudget : Turn → Type 0
    KeepsBudget t =
        (s : Store) → IsWithin t.now (load json s) → IsWithin t.later (load json (t.waited s).0)

    ahead-IsWithin :
        (time : ℕ) (d : Drain) (waited : Store × Bool)
        → IsWithin time (load json waited.0)
        → IsWithin time (load json (go_ahead json show creds d waited).0.store)
    unfolding go_ahead
    ahead-IsWithin time d (s, false) h = h
    ahead-IsWithin time d (s, true) h = h

    module _ (time : ℕ) (t : Turn) (a : time ≤ t.now) (b : t.now ≤ t.later)
        (keeps : KeepsBudget t) where
      abbrev Stays : Drain → Turned → Type 0
      Stays d ended = IsWithin time (load json d.store) → IsWithin t.later (load json ended.0.store)

      same-Stays : (d : Drain) (ended : Turned) → SameBudget ended.0.store d.store → Stays d ended
      same-Stays d ended e h =
          later-IsWithin time t.later (load json ended.0.store) (omega arith)
            (same-IsWithin json time ended.0.store d.store e h)

      budget-Stays :
          (rom : QueuedRom) (local : LocalGameIdAnswer) (d : Drain)
          → Stays d (within_budget json show creds t rom local d)
      unfolding within_budget
      budget-Stays rom local d h =
          let fine : Turned → Type 0 = λ ended. IsWithin t.later (load json ended.0.store) in
          let stays = later-IsWithin time t.later (load json d.store) (omega arith) h in
          if-both fine (remaining_now json d.store t.now == 0) _ _ (λ spent. stays)
            λ left.
              if-both fine
                (ltb 0 d.requested
                  && (not d.paced && past_burst json show d.store d.requested t.now))
                (go_ahead json show creds d (t.waited d.store))
                (request_rom json show creds t rom local d)
                (λ waits.
                  ahead-IsWithin t.later d (t.waited d.store)
                    (keeps d.store (later-IsWithin time t.now (load json d.store) a h)))
                (λ asks. request-IsWithin time t rom local d a b (ground arith) h)

      rom-Stays :
          (rom : QueuedRom) (local : LocalGameIdAnswer) (d : Drain)
          → Stays d (handle_rom json show creds t rom local d)
      unfolding handle_rom report
      rom-Stays rom LocalGameIdAnswer.no_match d =
          same-Stays d (handle_rom json show creds t rom LocalGameIdAnswer.no_match d)
            (remove-SameBudget rom d.store)
      rom-Stays rom unanswered d = budget-Stays rom unanswered d
      rom-Stays rom (answered game hash) d =
          let s' = remember_source_rom_path t.now game creds.user rom.source_rom_path d.store in
          if-both (Stays d) (member game d.known_game_ids) _ _
            (λ there h. later-IsWithin time t.later (load json (remove rom s')) (omega arith) (
              same-IsWithin json time (remove rom s') d.store
                (remove-SameBudget rom s'
                  ∙ remember-frame cache_budget_key budget-IsForeign t.now game creds.user
                      rom.source_rom_path d.store)
                h))
            (λ new. budget-Stays rom (answered game hash) d)

      next-Stays :
          (d : Drain) (found : Option QueuedRom)
          → Stays d (handle_next json show creds t (d, found))
      unfolding handle_next
      next-Stays d none h = later-IsWithin time t.later (load json d.store) (omega arith) h
      next-Stays d (some rom) h = rom-Stays rom _ d h

      turn-Stays : (stop_at : ℕ) (d : Drain) → Stays d (turn json show creds stop_at t d)
      unfolding turn rate_limited_at
      turn-Stays stop_at d h =
          let stays : IsWithin t.later (load json d.store) =
            later-IsWithin time t.later (load json d.store) (omega arith) h in
          elim (Bool-cases t.should_pause) [
            | inl stops ↦ rw (stops, turn) stays
            | inr runs ↦ elim (Option-cases t.limited) [
              | inr (until, limited) ↦
                  rw (runs, limited, turn) (pause-IsWithin json t.later t.now until d.store stays)
              | inl free ↦ elim (Bool-cases (leb stop_at t.now)) [
                | inl late ↦ rw (runs, free, late, turn) stays
                | inr early ↦
                    let got = next_rom json show d in
                    rw (runs, free, early, turn)
                      (next-Stays got.0 got.1 (
                        same-IsWithin json time got.0.store d.store (next-SameBudget json show d)
                          h))
              ]
            ]
          ]

    -- The clock does not run backwards, and other callers keep to the budget.
    abbrev pub InOrder : ℕ → List Turn → Type 0
    InOrder time [] = Unit
    InOrder time (t ∷ later) =
        (time ≤ t.now) × (t.now ≤ t.later) × KeepsBudget t × InOrder t.later later

    abbrev IsBounded : Option (Drain × DrainResult) → Type 0
    IsBounded none = Unit
    IsBounded (some (d, r)) = (load json d.store).used ≤ budget_limit

    ended-IsBounded :
        (time : ℕ) (rest : Drain → Option (Drain × DrainResult)) (ended : Turned)
        → ((d : Drain) → IsWithin time (load json d.store) → IsBounded (rest d))
        → IsWithin time (load json ended.0.store)
        → IsBounded (go_on json show creds rest ended)
    unfolding go_on
    ended-IsBounded time rest (d, none) step h = step d h
    ended-IsBounded time rest (d, some r) step h = h.used

    turns-IsBounded :
        (time stop_at : ℕ) (outside : List Turn) (d : Drain)
        → InOrder time outside
        → IsWithin time (load json d.store)
        → IsBounded (turns json show creds stop_at outside d)
    unfolding turns
    turns-IsBounded time stop_at [] d order h = tt
    turns-IsBounded time stop_at (t ∷ later) d (a, b, keeps, order) h =
        ended-IsBounded t.later (turns json show creds stop_at later)
          (turn json show creds stop_at t d)
          (λ d' h'. turns-IsBounded t.later stop_at later d' order h')
          (turn-Stays time t a b keeps stop_at d h)

    -- A drain that starts with a window that counts no more games than the limit ends with one, also
    -- where others drain while it waits and keep to the budget, if the clock does not run backwards.
    pub drain_locked-used_le :
        (started_at : ℕ) (outside : List Turn) (keys : Option (List Text)) (s : Store) (d : Drain)
        (r : DrainResult)
        → IsWithin started_at (load json s)
        → InOrder started_at outside
        → drain_locked json show creds started_at outside keys s ≡ some (d, r)
        → (load json d.store).used ≤ budget_limit
    unfolding drain_locked
    drain_locked-used_le started_at outside keys s d r h order ended = subst IsBounded ended (
        turns-IsBounded started_at (started_at + batch_max) outside (start json show creds keys s)
          order h)
