-- ===== src/RomCache/GameIds.antt =====
-- Which games the cached data names for achievements: `_iter_achievementsets_achievements` and
-- `build_achievement_game_ids` of linux/raofflineproxy/rom_cache.py. A dict is a list of pairs, and the keys
-- of one JSON dict differ.
pub mod Search
pub mod Wanted
pub mod Found
use raoffline_proxy.Prelude.{
  ℕ, zero, suc, Bool, true, false, ◌&&◌, ◌||◌, not, Option, none, some, List, [], ◌∷◌, ◌++◌, map,
  Text, codes, any, ltb, leb, ◌==◌, if◌then◌else◌, text_eq, starts_with, drop_prefix, length,
  is_some,
}
use raoffline_proxy.Prelude.Sorted.{sort}
use raoffline_proxy.CacheKeys.{
  Prefix, prefix_text, strip_left, parse_game_id_from_patch_key, parse_game_id_from_last_played_key,
}
use raoffline_proxy.CacheKeys.Decimal.{decimal}
use raoffline_proxy.Json.{
  Json, Items, Fields, null, bool, num, real, str, arr, obj, nil, cons, end, field, Codec, field_of,
  as_int, is_true,
}
use raoffline_proxy.Storage.{Entry, Store}
use raoffline_proxy.Storage.Cache.{entries_by_prefix}
use raoffline_proxy.RomCache.Unlocks.{GameIds, game_of, member, merge_cached}

-- `ids.setdefault(achievement, game)`
unfoldable pub set_default : ℕ → ℕ → GameIds → GameIds
unfolding game_of
set_default achievement game ids =
    if is_some (game_of achievement ids) then ids else ids ++ (achievement, game) ∷ []

-- The achievement's ID, if it is a positive int, belongs to the game.
unfoldable pub add_achievement : ℕ → Fields → GameIds → GameIds
unfolding field_of as_int set_default
add_achievement game achievement ids = elim (field_of (codes "ID") achievement) [
  | none ↦ ids
  | some v ↦ elim (as_int v) [
    | none ↦ ids
    | some n ↦ if ltb 0 n then set_default n game ids else ids
  ]
]

-- The achievements of a patch; one that is no dict raises.
unfoldable pub add_patch_items : ℕ → Items → GameIds → Option GameIds
unfolding add_achievement
add_patch_items game nil ids = some ids
add_patch_items game (cons (obj achievement) vs) ids =
    add_patch_items game vs (add_achievement game achievement ids)
add_patch_items game (cons _ vs) ids = none

unfoldable pub values_of : Fields → Items
values_of end = nil
values_of (field k v fs) = cons v (values_of fs)

-- What the loop over `Achievements` goes through; the characters of a text have no `get`.
unfoldable pub patch_achievements : Json → Option Items
unfolding values_of
patch_achievements (arr vs) = some vs
patch_achievements (obj fs) = some (values_of fs)
patch_achievements (str []) = some nil
patch_achievements _ = none

unfoldable pub achievements_of_data : Option Json → Option Items
unfolding field_of is_true patch_achievements
achievements_of_data none = some nil
achievements_of_data (some (obj patch)) = elim (field_of (codes "Achievements") patch) [
  | none ↦ some nil
  | some v ↦ patch_achievements v
]
achievements_of_data (some v) = if is_true v then none else some nil

-- What is added for one patch that was read.
unfoldable pub add_patch : ℕ → Json → GameIds → Option GameIds
unfolding field_of achievements_of_data add_patch_items
add_patch game (obj payload) ids =
    elim (achievements_of_data (field_of (codes "PatchData") payload)) [
      | none ↦ none
      | some vs ↦ add_patch_items game vs ids
    ]
add_patch game _ ids = none

-- The dicts among the achievements of a set.
unfoldable pub add_set_items : ℕ → Items → GameIds → GameIds
unfolding add_achievement
add_set_items game nil ids = ids
add_set_items game (cons (obj achievement) vs) ids =
    add_set_items game vs (add_achievement game achievement ids)
add_set_items game (cons _ vs) ids = add_set_items game vs ids

-- `v if isinstance(v, int) and v > 0`
unfoldable pub positive_int : Option Json → Option ℕ
unfolding as_int
positive_int none = none
positive_int (some v) = elim (as_int v) [ none ↦ none | some n ↦ if ltb 0 n then some n else none ]

unfoldable pub add_sets : ℕ → Items → GameIds → GameIds
unfolding field_of positive_int add_set_items
add_sets game nil ids = ids
add_sets game (cons (obj one) vs) ids = elim (field_of (codes "Achievements") one) [
  | some (arr items) ↦ elim (positive_int (field_of (codes "GameId") one)) [
    | none ↦ add_sets game vs (add_set_items game items ids)
    | some own ↦ add_sets game vs (add_set_items own items ids)
  ]
  | _ ↦ add_sets game vs ids
]
add_sets game (cons _ vs) ids = add_sets game vs ids

-- `_iter_achievementsets_achievements`, with what is done for each.
unfoldable pub add_achievementsets : ℕ → Fields → GameIds → GameIds
unfolding field_of values_of add_set_items add_sets
add_achievementsets game payload ids = elim (field_of (codes "Achievements") payload) [
  | some (obj direct) ↦ add_set_items game (values_of direct) ids
  | some (arr direct) ↦ add_set_items game direct ids
  | _ ↦ elim (field_of (codes "Sets") payload) [
    | some (arr sets) ↦ add_sets game sets ids
    | _ ↦ ids
  ]
]

module _ (json : Codec) where
  open json use {loads}

  -- `build_achievement_game_ids`: the patches first, then the achievement sets.
  unfoldable pub add_patches : List Entry → GameIds → Option GameIds
  unfolding parse_game_id_from_patch_key add_patch
  add_patches [] ids = some ids
  add_patches (e ∷ es) ids = elim (parse_game_id_from_patch_key e.cache_key) [
    | none ↦ add_patches es ids
    | some game ↦ elim (loads e.response_body) [
      | none ↦ add_patches es ids
      | some payload ↦ elim (add_patch game payload ids) [
        | none ↦ none
        | some ids' ↦ add_patches es ids'
      ]
    ]
  ]

  unfoldable pub add_set_payload : Json → GameIds → Option GameIds
  unfolding field_of positive_int add_achievementsets
  add_set_payload (obj payload) ids = elim (positive_int (field_of (codes "GameId") payload)) [
    | none ↦ some ids
    | some game ↦ some (add_achievementsets game payload ids)
  ]
  add_set_payload _ ids = none

  unfoldable pub add_set_entries : List Entry → GameIds → Option GameIds
  unfolding add_set_payload
  add_set_entries [] ids = some ids
  add_set_entries (e ∷ es) ids = elim (loads e.response_body) [
    | none ↦ add_set_entries es ids
    | some payload ↦ elim (add_set_payload payload ids) [
      | none ↦ none
      | some ids' ↦ add_set_entries es ids'
    ]
  ]

  unfoldable pub build_achievement_game_ids : List Entry → List Entry → Option GameIds
  unfolding add_patches add_set_entries
  build_achievement_game_ids patches sets = elim (add_patches patches []) [
    | none ↦ none
    | some ids ↦ add_set_entries sets ids
  ]

  -- The map of one entry that was found under the prefix.
  unfoldable pub entry_game_ids : Text → Entry → Option GameIds
  unfolding text_eq prefix_text build_achievement_game_ids
  entry_game_ids prefix e =
      if text_eq prefix (prefix_text Prefix.achievementsets)
      then build_achievement_game_ids [] (e ∷ [])
      else build_achievement_game_ids (e ∷ []) []
