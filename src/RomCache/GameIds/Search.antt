-- ===== src/RomCache/GameIds/Search.antt =====
-- The search for the games of some achievements: `find_achievement_game_ids`, `likely_first_prefixes` and
-- `achievement_id_pattern` of linux/raofflineproxy/rom_cache.py, and `played_game_ids_newest_first` of
-- linux/raofflineproxy/last_played.py.
use raoffline_proxy.Prelude.{
  ℕ, zero, suc, Bool, true, false, ◌&&◌, ◌||◌, not, Option, none, some, List, [], ◌∷◌, ◌++◌, map,
  Text, codes, any, leb, ◌==◌, if◌then◌else◌, starts_with, drop_prefix, length,
}
use raoffline_proxy.Prelude.Sorted.{sort}
use raoffline_proxy.CacheKeys.{Prefix, prefix_text, strip_left, parse_game_id_from_last_played_key}
use raoffline_proxy.CacheKeys.Decimal.{decimal}
use raoffline_proxy.Json.{Codec}
use raoffline_proxy.Storage.{Entry, Store}
use raoffline_proxy.Storage.Cache.{entries_by_prefix}
use raoffline_proxy.RomCache.Unlocks.{GameIds, game_of, member, merge_cached}
use raoffline_proxy.RomCache.GameIds.{set_default, entry_game_ids}

-- `"ID"\s*:\s*(?:…)(?![0-9])` at the start of a text.
unfoldable pub is_ascii_digit : ℕ → Bool
is_ascii_digit c = leb 48 c && leb c 57

unfoldable pub ends_number : Text → Bool
unfolding is_ascii_digit
ends_number [] = true
ends_number (c ∷ s) = not (is_ascii_digit c)

unfoldable pub starts_with_id : Text → ℕ → Bool
unfolding starts_with drop_prefix decimal ends_number
starts_with_id s n = starts_with s (decimal n) && ends_number (drop_prefix s (decimal n))

unfoldable pub value_mentions : List ℕ → Text → Bool
unfolding strip_left starts_with_id any
value_mentions wanted [] = false
value_mentions wanted (c ∷ s) = (c == 58) && any (starts_with_id (strip_left s)) wanted

unfoldable pub mentions_here : List ℕ → Text → Bool
unfolding starts_with drop_prefix strip_left value_mentions
mentions_here wanted s =
    starts_with s (codes "\"ID\"")
    && value_mentions wanted (strip_left (drop_prefix s (codes "\"ID\"")))

-- `achievement_id_pattern(wanted).search(s)`
unfoldable pub mentions_wanted : List ℕ → Text → Bool
unfolding mentions_here
mentions_wanted wanted [] = false
mentions_wanted wanted (c ∷ s) = mentions_here wanted (c ∷ s) || mentions_wanted wanted s

unfoldable pub played_game_ids : List Entry → List ℕ
unfolding parse_game_id_from_last_played_key
played_game_ids [] = []
played_game_ids (e ∷ es) = elim (parse_game_id_from_last_played_key e.cache_key) [
  | none ↦ played_game_ids es
  | some game ↦ game ∷ played_game_ids es
]

unfoldable pub played_game_ids_newest_first : Store → List ℕ
unfolding played_game_ids entries_by_prefix prefix_text sort
played_game_ids_newest_first s = played_game_ids (
    sort (λ (a b : Entry). leb b.cached_at a.cached_at)
      (entries_by_prefix s (prefix_text Prefix.last_played)))

-- `[…][:n]`, and `dict.fromkeys(…)`.
unfoldable pub take_at_most : ℕ → List ℕ → List ℕ
take_at_most zero ns = []
take_at_most (suc k) [] = []
take_at_most (suc k) (n ∷ ns) = n ∷ take_at_most k ns

unfoldable pub once_each : List ℕ → List ℕ → List ℕ
once_each seen [] = seen
once_each seen (n ∷ ns) = once_each (if member n seen then seen else seen ++ n ∷ []) ns

abbrev pub likely_recent_games : ℕ
likely_recent_games = 10

unfoldable pub patch_prefix : ℕ → Text
patch_prefix game = codes "patch:" ++ decimal game ++ codes ":"

unfoldable pub likely_first_prefixes : Option ℕ → Store → List Text
unfolding take_at_most once_each played_game_ids_newest_first patch_prefix prefix_text
likely_first_prefixes likely s =
    let recent = take_at_most likely_recent_games (played_game_ids_newest_first s) in
    let games : List ℕ = elim likely [ none ↦ recent | some game ↦ game ∷ recent ] in
    map patch_prefix (once_each [] games)
    ++ prefix_text Prefix.patch ∷ prefix_text Prefix.achievementsets ∷ []

-- `for achievement_id in wanted.intersection(…): found.setdefault(…)`
unfoldable pub take_wanted : List ℕ → GameIds → GameIds → GameIds
unfolding game_of set_default
take_wanted [] ids found = found
take_wanted (n ∷ ns) ids found = elim (game_of n ids) [
  | none ↦ take_wanted ns ids found
  | some game ↦ take_wanted ns ids (set_default n game found)
]

-- After some entries: to go on, all found, or an exception.
pub data Search : Type 0 where
  going : GameIds → Search
  all_found : GameIds → Search
  search_raised : Search

unfoldable pub after_entry : List ℕ → GameIds → Search
after_entry wanted found = if length found == length wanted then all_found found else going found

module _ (json : Codec) where
  unfoldable pub search_entries : Text → List ℕ → List Entry → GameIds → Search
  unfolding mentions_wanted entry_game_ids take_wanted after_entry
  search_entries prefix wanted [] found = going found
  search_entries prefix wanted (e ∷ es) found = elim (mentions_wanted wanted e.response_body) [
    | false ↦ search_entries prefix wanted es found
    | true ↦ elim (entry_game_ids json prefix e) [
      | none ↦ search_raised
      | some ids ↦ elim (after_entry wanted (take_wanted wanted ids found)) [
        | going found' ↦ search_entries prefix wanted es found'
        | all_found found' ↦ all_found found'
        | search_raised ↦ search_raised
      ]
    ]
  ]

  unfoldable pub search_prefixes : List ℕ → Store → List Text → GameIds → Option GameIds
  unfolding search_entries entries_by_prefix
  search_prefixes wanted s [] found = some found
  search_prefixes wanted s (prefix ∷ later) found =
      elim (search_entries prefix wanted (entries_by_prefix s prefix) found) [
        | going found' ↦ search_prefixes wanted s later found'
        | all_found found' ↦ some found'
        | search_raised ↦ none
      ]

  -- The positive ones of the achievements, each once; without any, nothing is read.
  unfoldable pub find_achievement_game_ids : Option ℕ → List ℕ → Store → Option GameIds
  unfolding merge_cached likely_first_prefixes search_prefixes
  find_achievement_game_ids likely achievements s =
      let wanted = merge_cached [] achievements in
      elim wanted [
        | [] ↦ some []
        | n ∷ ns ↦ search_prefixes (n ∷ ns) s (likely_first_prefixes likely s) []
      ]
