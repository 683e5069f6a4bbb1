-- ===== src/RomCache/ActionFilter.antt =====
-- What of a response is passed on: `filter_warning_achievements_for_action` of
-- linux/raofflineproxy/rom_cache.py.
use raoffline_proxy.Prelude.{Option, none, some, Text, codes, text_eq, if◌then◌else◌}
use raoffline_proxy.Json.{Fields, arr, obj, Codec, field_of, set_field, keep_items}
use raoffline_proxy.RomCache.{is_genuine, filter_patch, filter_unlocks}
use raoffline_proxy.RomCache.Game.{filter_warning_achievement_definitions}

-- Of the fields of the payload.
unfoldable pub filter_start_session : Fields → Fields
unfolding set_field field_of keep_items is_genuine
filter_start_session payload = elim (field_of (codes "Unlocks") payload) [
  | some (arr entries) ↦ set_field (codes "Unlocks") (arr (keep_items is_genuine entries)) payload
  | _ ↦ payload
]

-- The actions whose responses are filtered.
pub data Filtered : Type 0 where
  patch achievementsets unlocks startsession : Filtered

unfoldable pub filtered_action : Option Text → Option Filtered
unfolding text_eq
filtered_action none = none
filtered_action (some action) =
    if text_eq action (codes "patch")
    then some patch
    else if text_eq action (codes "achievementsets")
    then some achievementsets
    else if text_eq action (codes "unlocks")
    then some unlocks
    else if text_eq action (codes "startsession")
    then some startsession
    else none

unfoldable pub filter_fields : Filtered → Fields → Fields
unfolding filter_patch filter_unlocks filter_start_session filter_warning_achievement_definitions
filter_fields patch payload = filter_patch payload
filter_fields achievementsets payload = filter_warning_achievement_definitions payload
filter_fields unlocks payload = filter_unlocks payload
filter_fields startsession payload = filter_start_session payload

-- `none`: a payload that is no dict raises.
unfoldable pub filter_warning_achievements_for_action : Codec → Option Text → Text → Option Text
unfolding filtered_action filter_fields
filter_warning_achievements_for_action json action body = elim (filtered_action action) [
  | none ↦ some body
  | some kind ↦ elim (json.loads body) [
    | none ↦ some body
    | some (obj payload) ↦ some (json.dumps (obj (filter_fields kind payload)))
    | some _ ↦ none
  ]
]
