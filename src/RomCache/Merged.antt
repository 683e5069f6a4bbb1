-- ===== src/RomCache/Merged.antt =====
-- Which achievements a session lists as unlocked: linux/raofflineproxy/rom_cache.py.
use raoffline_proxy.Prelude.{
  ℕ, ◌≡◌, ap, ◌∙◌, Bool, ◌&&◌, ◌||◌, some, List, [], ◌∷◌, ◌++◌, Text, arith, any, ltb, ◌==◌,
  Bool-cases, inl, inr,
}
use raoffline_proxy.Storage.{Award}
use raoffline_proxy.RomCache.Unlocks.{
  GameIds, game_of, is_game, member, is_pending_softcore_unlock, with_cached, merge_cached,
}

member-snoc : (n x : ℕ) (ns : List ℕ) → member n (ns ++ x ∷ []) ≡ member n ns || (x == n)
unfolding any
member-snoc n x [] = ground arith
member-snoc n x (m ∷ ns) = ground (arith, member-snoc n x ns)

-- The award adds the achievement to the session of this game and user.
abbrev pub adds : GameIds → ℕ → Text → ℕ → Award → Bool
adds ids game user n a =
    is_pending_softcore_unlock (some user) a
    && ((a.achievement_id == n) && is_game (game_of n ids) game)

member-with_cached :
    (n m : ℕ) (merged : List ℕ)
    → member n (with_cached merged m) ≡ member n merged || (ltb 0 n && (m == n))
unfolding with_cached
member-with_cached n m merged = elim (Bool-cases (m == n)) [
  | inl same ↦
      let e : m ≡ n = ground arith in
      let here : member m merged ≡ member n merged = ap (λ x. member x merged) e in
      ground (arith, member-snoc n m merged)
  | inr differ ↦ ground (arith, member-snoc n m merged)
]

pub member-merge_cached :
    (n : ℕ) (merged ns : List ℕ)
    → member n (merge_cached merged ns) ≡ member n merged || (ltb 0 n && member n ns)
unfolding merge_cached any
member-merge_cached n merged [] = ground arith
member-merge_cached n merged (m ∷ ns) =
    member-merge_cached n (with_cached merged m) ns ∙ ground (arith, member-with_cached n m merged)

abbrev same : ℕ → ℕ → Bool
same m n = m == n
