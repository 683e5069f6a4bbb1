-- ===== src/CacheBudget/Stored.antt =====
-- The window that linux/raofflineproxy/cache_budget.py keeps in the cache.
use raoffline_proxy.Prelude.{
  ℕ, ◌-◌, ◌≤◌, ◌≡◌, refl, ◌∙◌, max, none, some, Text, text_eq, text_eq_refl, arith, ltb, Bool-cases,
  inl, inr,
}
use raoffline_proxy.Json.{Codec}
use raoffline_proxy.CacheKeys.{cache_budget_key}
use raoffline_proxy.Storage.{Store}
use raoffline_proxy.Storage.Cache.{upsert_cache, overwrite}
use raoffline_proxy.Storage.CacheLaws.{get_cache-upsert, written}
use raoffline_proxy.CacheBudget.{
  BudgetWindow, budget_limit, budget_window, charge, to_value, from_value, to_json, from_json, load,
  save, charge_game, pause_until, remaining_now,
}
use raoffline_proxy.CacheBudget.Laws.{remaining-charge}

from_value-to_value : (w : BudgetWindow) → from_value (to_value w) ≡ some w
unfolding from_value to_value text_eq
from_value-to_value w = refl

written-body :
    (s : Store) (key body : Text) (now : ℕ) → (written s key body none now).response_body ≡ body
unfolding written overwrite
written-body s key body now = ground arith

module _ (json : Codec) where
  from_json-to_json : (w : BudgetWindow) → from_json json (some (to_json json w)) ≡ w
  unfolding from_json to_json
  from_json-to_json w = rw (json.loads-dumps (to_value w), from_json) (rw (from_value-to_value w))

  -- The window that was saved is the one that is loaded, whatever the store held.
  pub load-save : (clock : ℕ) (w : BudgetWindow) (s : Store) → load json (save json clock w s) ≡ w
  unfolding load save upsert_cache
  load-save clock w s =
      rw (get_cache-upsert s cache_budget_key (to_json json w) cache_budget_key none clock) (
        rw (text_eq_refl cache_budget_key, written-body s cache_budget_key (to_json json w) clock)
          (from_json-to_json w))

  -- A game that is cached takes one from what remains.
  pub remaining-charge_game :
      (clock now : ℕ) (s : Store)
      → (load json s).paused_until ≤ now
      → remaining_now json (charge_game json clock now s) now ≡ remaining_now json s now - 1
  unfolding remaining_now charge_game
  remaining-charge_game clock now s h =
      rw (load-save clock (charge (load json s) now 1 budget_window) s)
        (remaining-charge (load json s) now 1 budget_limit budget_window h (omega arith)).0

  -- A pause is set to the later of its two ends, and the count of the window is kept.
  pub load-pause_until :
      (clock until : ℕ) (s : Store)
      → let w = load json s in
        load json (pause_until json clock until s)
        ≡ record w { paused_until = max w.paused_until until }
  unfolding pause_until
  load-pause_until clock until s = elim (Bool-cases (ltb (load json s).paused_until until)) [
    | inl later ↦
        rw later (load-save clock (record (load json s) { paused_until = until }) s ∙ ground arith)
    | inr sooner ↦ rw sooner (ground arith)
  ]
