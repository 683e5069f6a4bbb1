-- ===== src/CacheBudget/Laws.antt =====
-- The window of linux/raofflineproxy/cache_budget.py: its bounds, and when caching may go on.
use raoffline_proxy.Prelude.{ℕ, ◌-◌, ◌≤◌, ◌<◌, ◌≡◌, ◌↔◌, List, [], ◌∷◌, arith, ltb, if◌then◌else◌}
use raoffline_proxy.CacheBudget.{BudgetWindow, current, charge, remaining, next_available_at}

-- Caching may go on now exactly when the next time at which it may go on is not in the future.
pub available_iff :
    (w : BudgetWindow) (now limit window : ℕ)
    → 0 < window
    → (0 < remaining w now limit window) ↔ (next_available_at w now limit window ≤ now)
unfolding remaining next_available_at current
available_iff w now limit window h = (λ p. ground arith, λ p. ground arith)

ready_at :
    (w : BudgetWindow) (now limit window t : ℕ)
    → w.window_start ≤ now
    → 0 < limit
    → next_available_at w now limit window ≤ t
    → 0 < remaining w t limit window
unfolding remaining next_available_at current
ready_at w now limit window t s l n = ground arith

-- At the time that is named there is budget, so waiting until then is enough, unless the clock
-- stands before the start of the window.
pub available_then :
    (w : BudgetWindow) (now limit window : ℕ)
    → w.window_start ≤ now
    → 0 < limit
    → 0 < remaining w (next_available_at w now limit window) limit window
available_then w now limit window s l =
    ready_at w now limit window (next_available_at w now limit window) s l (omega arith)

-- A charge takes exactly its games from what remains, and never shortens the pause.
pub remaining-charge :
    (w : BudgetWindow) (now games limit window : ℕ)
    → w.paused_until ≤ now
    → 0 < window
    → (remaining (charge w now games window) now limit window
        ≡ remaining w now limit window - games)
      × ((charge w now games window).paused_until ≡ w.paused_until)
unfolding remaining charge current
remaining-charge w now games limit window p h = (ground arith, ground arith)

-- Games cached at the given times, each only while something remains.
unfoldable pub run : ℕ → ℕ → BudgetWindow → List ℕ → BudgetWindow
run limit window w [] = w
run limit window w (now ∷ times) =
    run limit window (if ltb 0 (remaining w now limit window) then charge w now 1 window else w)
      times

charge_guarded :
    (w : BudgetWindow) (now limit window : ℕ)
    → w.used ≤ limit
    → (if ltb 0 (remaining w now limit window) then charge w now 1 window else w).used ≤ limit
unfolding remaining charge current
charge_guarded w now limit window h = ground arith

-- However the clock runs, a window never counts more games than the limit.
pub run-used_le :
    (limit window : ℕ) (times : List ℕ) (w : BudgetWindow)
    → w.used ≤ limit
    → (run limit window w times).used ≤ limit
unfolding run
run-used_le limit window [] w h = h
run-used_le limit window (now ∷ times) w h =
    run-used_le limit window times _ (charge_guarded w now limit window h)
