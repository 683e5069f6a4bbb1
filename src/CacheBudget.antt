-- ===== src/CacheBudget.antt =====
-- linux/raofflineproxy/cache_budget.py: how many games may be cached in a window of 30 minutes.
-- Times are milliseconds since the epoch; no stored number is negative.
pub mod Laws
pub mod Stored
use raoffline_proxy.Prelude.{
  ℕ, zero, suc, ◌+◌, ◌-◌, max, Bool, true, false, ◌||◌, Option, none, some, List, [], ◌∷◌, Text,
  codes, ltb, leb, if◌then◌else◌, get_or,
}
use raoffline_proxy.Json.{Json, num, obj, null, field, end, Codec, get_field, to_int}
use raoffline_proxy.CacheKeys.{cache_budget_key}
use raoffline_proxy.Storage.{Store, Entry}
use raoffline_proxy.Storage.Cache.{get_cache, upsert_cache}

abbrev pub budget_limit : ℕ
budget_limit = 100

-- CACHE_BUDGET_WINDOW_MS
abbrev pub budget_window : ℕ
budget_window = 1800000

pub record BudgetWindow : Type 0 where
  pub window_start : ℕ
  pub used : ℕ
  pub paused_until : ℕ

abbrev pub no_window : BudgetWindow
no_window = record { window_start = 0; used = 0; paused_until = 0 }

unfoldable pub current : BudgetWindow → ℕ → ℕ → BudgetWindow
current w now window =
    if ltb now w.window_start || leb window (now - w.window_start)
    then record { window_start = now; used = 0; paused_until = w.paused_until }
    else w

unfoldable pub charge : BudgetWindow → ℕ → ℕ → ℕ → BudgetWindow
unfolding current
charge w now games window = let c = current w now window in record c { used = c.used + games }

-- `max(0, limit - used)` is the truncated difference.
unfoldable pub remaining : BudgetWindow → ℕ → ℕ → ℕ → ℕ
unfolding current
remaining w now limit window =
    if ltb now w.paused_until then 0 else limit - (current w now window).used

unfoldable pub next_available_at : BudgetWindow → ℕ → ℕ → ℕ → ℕ
unfolding current
next_available_at w now limit window =
    let c = current w now window in
    max w.paused_until (if ltb c.used limit then now else c.window_start + window)

abbrev field_window_start : Text
field_window_start = codes "windowStart"

abbrev field_used : Text
field_used = codes "used"

abbrev field_paused_until : Text
field_paused_until = codes "pausedUntil"

unfoldable pub to_value : BudgetWindow → Json
to_value w = obj (
    field field_window_start (num w.window_start)
      (field field_used (num w.used) (field field_paused_until (num w.paused_until) end)))

-- `int(payload.get(k, 0))`
unfoldable pub int_field : Text → Json → Option ℕ
unfolding get_field to_int
int_field k payload = elim (get_field k (num 0) payload) [ none ↦ none | some v ↦ to_int v ]

unfoldable pub from_value : Json → Option BudgetWindow
unfolding int_field
from_value payload = elim (int_field field_window_start payload) [
  | none ↦ none
  | some start ↦ elim (int_field field_used payload) [
    | none ↦ none
    | some used ↦ elim (int_field field_paused_until payload) [
      | none ↦ none
      | some until ↦ some (record { window_start = start; used = used; paused_until = until })
    ]
  ]
]

module _ (json : Codec) where
  open json use {dumps, loads}

  unfoldable pub to_json : BudgetWindow → Text
  unfolding to_value
  to_json w = dumps (to_value w)

  -- Whatever cannot be read is an empty window. `none` stands for a missing body, which is read as "".
  unfoldable pub from_json : Option Text → BudgetWindow
  unfolding from_value
  from_json body = elim (loads (get_or body [])) [
    | none ↦ no_window
    | some payload ↦ get_or (from_value payload) no_window
  ]

  unfoldable pub load : Store → BudgetWindow
  unfolding from_json
  load s =
      from_json
        (elim (get_cache s cache_budget_key) [ none ↦ none | some e ↦ some e.response_body ])

  unfoldable pub save : ℕ → BudgetWindow → Store → Store
  save clock w s = upsert_cache clock cache_budget_key (to_json w) none none s

  -- `now or current_millis()` is the argument `now`; `clock` is the time of the write.
  unfoldable pub charge_game : ℕ → ℕ → Store → Store
  charge_game clock now s = save clock (charge (load s) now 1 budget_window) s

  unfoldable pub pause_until : ℕ → ℕ → Store → Store
  pause_until clock until s =
      let w = load s in
      if ltb w.paused_until until then save clock (record w { paused_until = until }) s else s

  unfoldable pub used_now : Store → ℕ → ℕ
  used_now s now = (current (load s) now budget_window).used

  unfoldable pub remaining_now : Store → ℕ → ℕ
  remaining_now s now = remaining (load s) now budget_limit budget_window

  unfoldable pub next_available_at_now : Store → ℕ → ℕ
  next_available_at_now s now = next_available_at (load s) now budget_limit budget_window
