-- ===== src/RomBrowser/Drain/Within.antt =====
-- The window of the budget, and what of a drain of linux/raofflineproxy/rom_browser.py leaves it alone.
use raoffline_proxy.Prelude.{
  ℕ, zero, suc, ◌≤◌, ◌<◌, ◌≡◌, refl, ◌∙◌, sym, subst, true, Option, none, some, Text, starts_with,
  starts_with-append, arith, keep, keep-All, Option-cases, inl, inr,
}
use raoffline_proxy.CacheKeys.{Prefix, prefix_text, cache_budget_key}
use raoffline_proxy.CacheKeys.Key
use raoffline_proxy.Json.{Json, Codec}
use raoffline_proxy.Storage.{Entry, Store}
use raoffline_proxy.Storage.Cache.{
  get_cache, delete_cache, key_starts_with, oldest_cache_by_prefix, entries_by_prefix,
}
use raoffline_proxy.Storage.CacheLaws.{get_cache-delete}
use raoffline_proxy.CacheBudget.{
  BudgetWindow, budget_limit, budget_window, current, charge, remaining, load, pause_until,
}
use raoffline_proxy.CacheBudget.Stored.{load-pause_until}
use raoffline_proxy.CacheQueue.{
  QueuedRom, key, queue_prefix, from_json, oldest, remove, queued_count, update,
  after_failed_attempt,
}
use raoffline_proxy.CacheQueue.Oldest.{oldest_of-All}
use raoffline_proxy.RomBrowser.Caching.{record_failed_attempt}
use raoffline_proxy.RomBrowser.Frame.{IsForeign, apart, upsert-frame}
use raoffline_proxy.RomBrowser.Drain.{next_rom, next_oldest}
use raoffline_proxy.RomBrowser.Drain.State.{Drain}

-- A window that counts no more games than the limit, and has started.
pub record IsWithin (time : ℕ) (w : BudgetWindow) : Type 0 where
  pub used : w.used ≤ budget_limit
  pub started : w.window_start ≤ time

pub charge-IsWithin :
    (w : BudgetWindow) (time now later : ℕ)
    → time ≤ now
    → now ≤ later
    → 0 < remaining w now budget_limit budget_window
    → IsWithin time w
    → IsWithin later (charge w later 1 budget_window)
unfolding remaining charge current
charge-IsWithin w time now later a b r h =
    let used = h.used in
    let started = h.started in record { used = ground arith; started = ground arith }

pub later-IsWithin :
    (time later : ℕ) (w : BudgetWindow) → time ≤ later → IsWithin time w → IsWithin later w
later-IsWithin time later w a h =
    let started = h.started in record { used = h.used; started = omega arith }

pub budget-IsForeign : IsForeign cache_budget_key
unfolding prefix_text starts_with
budget-IsForeign = record {
  gameid = refl;
  patch = refl;
  unlocks = refl;
  achievementsets = refl;
  startsession = refl;
}

-- Nothing but the budget's own key decides what is loaded.
abbrev pub SameBudget : Store → Store → Type 0
SameBudget s' s = get_cache s' cache_budget_key ≡ get_cache s cache_budget_key

delete-SameBudget :
    (k : Text) (s : Store) → starts_with k queue_prefix ≡ true → SameBudget (delete_cache k s) s
delete-SameBudget k s h =
    get_cache-delete s k cache_budget_key
    ∙ rw (apart cache_budget_key k Prefix.cache_queue h (unfold prefix_text starts_with in refl))
        refl

key-queue_prefix : (rom : QueuedRom) → starts_with (key rom) queue_prefix ≡ true
unfolding key Key.cache_queue
key-queue_prefix rom = starts_with-append _ _

pub remove-SameBudget : (rom : QueuedRom) (s : Store) → SameBudget (remove rom s) s
unfolding remove
remove-SameBudget rom s = delete-SameBudget (key rom) s (key-queue_prefix rom)

oldest_entry-prefix :
    (s : Store) (e : Entry)
    → oldest_cache_by_prefix s queue_prefix ≡ some e
    → starts_with e.cache_key queue_prefix ≡ true
unfolding oldest_cache_by_prefix entries_by_prefix
oldest_entry-prefix s e h =
    oldest_of-All (λ x. starts_with x.cache_key queue_prefix ≡ true)
      (keep (key_starts_with queue_prefix) s.api_cache) e
      (keep-All (key_starts_with queue_prefix) s.api_cache) h

module _ (json : Codec) where
  pub load-same : (s' s : Store) → SameBudget s' s → load json s' ≡ load json s
  unfolding load
  load-same s' s h = rw h refl

  pub pause-IsWithin :
      (time clock until : ℕ) (s : Store)
      → IsWithin time (load json s)
      → IsWithin time (load json (pause_until json clock until s))
  pause-IsWithin time clock until s h =
      rw (load-pause_until json clock until s) (record { used = h.used; started = h.started })

  pub same-IsWithin :
      (time : ℕ) (s' s : Store)
      → SameBudget s' s
      → IsWithin time (load json s)
      → IsWithin time (load json s')
  same-IsWithin time s' s e h = rw (load-same s' s e) h

  module _ (show : Json → Text) where
    update-SameBudget :
        (clock : ℕ) (rom : QueuedRom) (s : Store) → SameBudget (update json show clock rom s) s
    unfolding update
    update-SameBudget clock rom s =
        upsert-frame cache_budget_key Prefix.cache_queue clock (key rom) _ none rom.source_rom_path
          s (key-queue_prefix rom) (unfold prefix_text starts_with in refl)

    pub failed-SameBudget :
        (clock : ℕ) (rom : QueuedRom) (s : Store)
        → SameBudget (record_failed_attempt json show clock rom s) s
    unfolding record_failed_attempt
    failed-SameBudget clock rom s = elim (Option-cases (after_failed_attempt rom)) [
      | inl last ↦ rw (last, record_failed_attempt) (remove-SameBudget rom s)
      | inr (retry, again) ↦ rw (again, record_failed_attempt) (update-SameBudget clock retry s)
    ]

    oldest-SameBudget :
        (fuel : ℕ) (s : Store) (found : Store × Option QueuedRom)
        → oldest json show fuel s ≡ some found
        → SameBudget found.0 s
    unfolding oldest
    oldest-SameBudget zero s found h = absurd cc
    oldest-SameBudget (suc fuel) s found h =
        elim (Option-cases (oldest_cache_by_prefix s queue_prefix)) [
          | inl empty ↦
              let ended : oldest json show (suc fuel) s ≡ some (s, none) =
                rw (empty, oldest) refl in
              let e : (s, none) ≡ found = cc in subst (λ got. SameBudget got.0 s) e refl
          | inr (x, there) ↦ elim (Option-cases (from_json json show x.response_body)) [
            | inr (rom, reads) ↦
                let ended : oldest json show (suc fuel) s ≡ some (s, some rom) =
                  rw (there, reads, oldest) refl in
                let e : (s, some rom) ≡ found = cc in subst (λ got. SameBudget got.0 s) e refl
            | inl unreadable ↦
                let again : oldest json show (suc fuel) s
                    ≡ oldest json show fuel (delete_cache x.cache_key s) =
                  rw (there, unreadable, oldest) refl in
                oldest-SameBudget fuel (delete_cache x.cache_key s) found (sym again ∙ h)
                ∙ delete-SameBudget x.cache_key s (oldest_entry-prefix s x there)
          ]
        ]

    next_oldest-SameBudget : (s : Store) → SameBudget (next_oldest json show s).0 s
    unfolding next_oldest
    next_oldest-SameBudget s = elim (Option-cases (oldest json show (suc (queued_count s)) s)) [
      | inl out ↦ rw (out, next_oldest) refl
      | inr (found, ended) ↦
          rw (ended, next_oldest) (oldest-SameBudget (suc (queued_count s)) s found ended)
    ]

    pub next-SameBudget : (d : Drain) → SameBudget (next_rom json show d).0.store d.store
    unfolding next_rom
    next-SameBudget d = elim (Option-cases d.keys) [
      | inl all ↦ rw (all, next_rom) (next_oldest-SameBudget d.store)
      | inr (ks, given) ↦ rw (given, next_rom) refl
    ]
