-- ===== src/RomBrowser/Drain/Queue.antt =====
-- What a request leaves in the queue of ROMs of linux/raofflineproxy/rom_browser.py.
use raoffline_proxy.Prelude.{
  false, ℕ, ◌+◌, ◌≡◌, refl, ◌∙◌, ap, Option, none, some, Text, starts_with, text_eq, text_eq_refl,
  if-both, ltb, leb, suc, arith, if◌then◌else◌, Option-cases, inl, inr,
}
use raoffline_proxy.CacheKeys.{prefix_text, cache_budget_key}
use raoffline_proxy.CacheKeys.Key
use raoffline_proxy.Json.{Json, Codec}
use raoffline_proxy.Storage.{Store}
use raoffline_proxy.Storage.Cache.{get_cache, upsert_cache, delete_cache}
use raoffline_proxy.Storage.CacheLaws.{get_cache-upsert, get_cache-delete}
use raoffline_proxy.Auth.{Credentials}
use raoffline_proxy.CacheBudget.{save, charge_game, pause_until, load, BudgetWindow}
use raoffline_proxy.CacheQueue.{
  QueuedRom, key, get, read_entry, remove, update, after_failed_attempt, max_attempts,
}
use raoffline_proxy.CacheQueue.Laws.{IsRom, get-update}
use raoffline_proxy.RomBrowser.{LocalGameIdAnswer, QueuedRomOutcome}
use raoffline_proxy.RomBrowser.Caching.{cache_queued_rom, record_failed_attempt}
use raoffline_proxy.RomBrowser.Frame.{IsForeign}
use raoffline_proxy.RomBrowser.Frame.Caching.{cache_queued_rom-frame}
use raoffline_proxy.RomBrowser.Drain.{
  rate_limited_at, settle, charge_cached, after_caching, request_rom,
}
use raoffline_proxy.RomBrowser.Drain.State.{Drain, Turn, report}

-- A ROM that failed for the third time is dropped; before, it waits with one attempt more.
abbrev pub one_attempt_more : QueuedRom → Option QueuedRom
one_attempt_more rom =
    if leb 2 rom.attempts then none else some (record rom { attempts = suc rom.attempts })

attempt-same : (rom : QueuedRom) → after_failed_attempt rom ≡ one_attempt_more rom
unfolding after_failed_attempt
attempt-same rom = ground arith

-- What is left of a ROM after its outcome, where `old` was read before.
abbrev pub left_of : QueuedRom → Option QueuedRom → QueuedRomOutcome → Option QueuedRom
left_of rom old QueuedRomOutcome.auth_rejected = old
left_of rom old QueuedRomOutcome.failed = one_attempt_more rom
left_of rom old QueuedRomOutcome.cached = none
left_of rom old QueuedRomOutcome.no_match = none
left_of rom old QueuedRomOutcome.already_cached = none

key-IsForeign : (rom : QueuedRom) → IsForeign (key rom)
unfolding key Key.cache_queue prefix_text starts_with
key-IsForeign rom = record {
  gameid = refl;
  patch = refl;
  unlocks = refl;
  achievementsets = refl;
  startsession = refl;
}

abbrev SameRom : QueuedRom → Store → Store → Type 0
SameRom rom s' s = get_cache s' (key rom) ≡ get_cache s (key rom)

module _ (json : Codec) (show : Json → Text) where
  get-same :
      (rom : QueuedRom) (s' s : Store)
      → SameRom rom s' s
      → get json show s' (key rom) ≡ get json show s (key rom)
  unfolding get
  get-same rom s' s h = rw h refl

  save-SameRom :
      (rom : QueuedRom) (clock : ℕ) (w : BudgetWindow) (s : Store)
      → SameRom rom (save json clock w s) s
  unfolding save upsert_cache key Key.cache_queue prefix_text text_eq
  save-SameRom rom clock w s = get_cache-upsert s cache_budget_key _ (key rom) none _

  charge-SameRom :
      (rom : QueuedRom) (clock : ℕ) (outcome : QueuedRomOutcome) (s : Store)
      → SameRom rom (charge_cached json show clock outcome s) s
  unfolding charge_cached charge_game
  charge-SameRom rom clock QueuedRomOutcome.cached s = save-SameRom rom clock _ s
  charge-SameRom rom clock QueuedRomOutcome.no_match s = refl
  charge-SameRom rom clock QueuedRomOutcome.already_cached s = refl
  charge-SameRom rom clock QueuedRomOutcome.failed s = refl
  charge-SameRom rom clock QueuedRomOutcome.auth_rejected s = refl

  pause-SameRom :
      (rom : QueuedRom) (clock until : ℕ) (s : Store)
      → SameRom rom (pause_until json clock until s) s
  unfolding pause_until
  pause-SameRom rom clock until s =
      if-both (λ s'. SameRom rom s' s) (ltb (load json s).paused_until until) _ _
        (λ later. save-SameRom rom clock _ s) (λ sooner. refl)

  removed-gone : (rom : QueuedRom) (s : Store) → get json show (remove rom s) (key rom) ≡ none
  unfolding remove get read_entry
  removed-gone rom s =
      let gone : get_cache (delete_cache (key rom) s) (key rom) ≡ none =
        get_cache-delete s (key rom) (key rom) ∙ rw (text_eq_refl (key rom)) refl in
      ap (read_entry json show) gone

  failed-left :
      (clock : ℕ) (rom : QueuedRom) (s : Store)
      → IsRom rom
      → get json show (record_failed_attempt json show clock rom s) (key rom)
        ≡ after_failed_attempt rom
  unfolding record_failed_attempt after_failed_attempt
  failed-left clock rom s h =
      let retry : QueuedRom = record rom { attempts = rom.attempts + 1 } in
      let left : Option QueuedRom → Store =
        λ o. elim o [ none ↦ remove rom s | some r ↦ update json show clock r s ] in
      if-both (λ o. get json show (left o) (key rom) ≡ o) (ltb (rom.attempts + 1) max_attempts)
        (some retry) none
        (λ again.
          unfold key in
          get-update json show clock retry s
            (record { hash = h.hash; more = h.more; path = h.path }))
        (λ last. removed-gone rom s)

  settle-left :
      (clock : ℕ) (rom : QueuedRom) (game : Option ℕ) (outcome : QueuedRomOutcome) (d : Drain)
      → IsRom rom
      → get json show (settle json show clock rom game outcome d).0.store (key rom)
        ≡ left_of rom (get json show d.store (key rom)) outcome
  unfolding settle report
  settle-left clock rom game QueuedRomOutcome.auth_rejected d h = refl
  settle-left clock rom game QueuedRomOutcome.failed d h =
      failed-left clock rom d.store h ∙ attempt-same rom
  settle-left clock rom game QueuedRomOutcome.cached d h = removed-gone rom d.store
  settle-left clock rom game QueuedRomOutcome.no_match d h = removed-gone rom d.store
  settle-left clock rom game QueuedRomOutcome.already_cached d h = removed-gone rom d.store

  -- What the queue has of the ROM after a turn that asked about it.
  abbrev pub expected_of : Turn → QueuedRom → Option QueuedRom → QueuedRomOutcome → Option QueuedRom
  expected_of t rom old outcome = elim t.limited_later [
    | some until ↦ old
    | none ↦ left_of rom old outcome
  ]

  -- A ROM of texts that are not blank that RetroAchievements is asked about stays in the queue as
  -- it is where a 429 comes in or the login is rejected; where it fails, it stays with one attempt
  -- more, or is dropped with its third one; and it leaves the queue once it is cached or has no
  -- match.
  pub request_rom-queue :
      (creds : Credentials) (t : Turn) (rom : QueuedRom) (local : LocalGameIdAnswer) (d : Drain)
      → IsRom rom
      → let handled =
          cache_queued_rom json t.server creds t.later rom d.known_game_ids local d.store in
        get json show (request_rom json show creds t rom local d).0.store (key rom)
        ≡ expected_of t rom (get json show d.store (key rom)) handled.outcome
  unfolding request_rom after_caching
  request_rom-queue creds t rom local d h =
      let handled =
        cache_queued_rom json t.server creds t.later rom d.known_game_ids local d.store in
      let s' = charge_cached json show t.later handled.outcome handled.store in
      let d' : Drain = record d { paced = false; requested = d.requested + 1; store = s' } in
      let same : get json show s' (key rom) ≡ get json show d.store (key rom) =
        get-same rom s' d.store (
          charge-SameRom rom t.later handled.outcome handled.store
          ∙ cache_queued_rom-frame (key rom) (key-IsForeign rom) json t.server creds t.later rom
              d.known_game_ids local d.store) in
      elim (Option-cases t.limited_later) [
        | inr (until, limited) ↦
            rw (limited, after_caching)
              (unfold rate_limited_at in
                (get-same rom (pause_until json t.later until s') s'
                    (pause-SameRom rom t.later until s')
                  ∙ same))
        | inl free ↦
            rw (free, after_caching)
              (settle-left t.later rom handled.game_id handled.outcome d' h
                ∙ ap (λ old. left_of rom old handled.outcome) same)
      ]
