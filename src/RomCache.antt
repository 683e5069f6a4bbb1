-- ===== src/RomCache.antt =====
-- Fetching a game's data and its unlocks: `refresh_game_patch`, `cache_unlocks` and the filters of
-- linux/raofflineproxy/rom_cache.py. Downloading images is left out.
pub mod Unlocks
pub mod Merged
pub mod GameIds
pub mod Sessions
pub mod Game
pub mod ActionFilter
use raoffline_proxy.Prelude.{
  ℕ, Bool, false, ◌&&◌, not, Option, none, some, Text, codes, ◌==◌, ltb, if◌then◌else◌, ◌||◌,
}
use raoffline_proxy.Json.{
  Json, Fields, arr, obj, Codec, field_of, set_field, as_int, is_true, keep_items, keep_fields,
}
use raoffline_proxy.CacheKeys.Key
use raoffline_proxy.Storage.{Store}
use raoffline_proxy.Storage.Cache.{upsert_cache}
use raoffline_proxy.Storage.Awards.{warning_achievement_id}
use raoffline_proxy.Auth.{Credentials}
use raoffline_proxy.Server.{HttpGet}

-- `v == n` for a number n.
unfoldable pub is_number : ℕ → Option Json → Bool
unfolding as_int
is_number n none = false
is_number n (some v) = elim (as_int v) [ none ↦ false | some m ↦ m == n ]

-- A dict whose ID is not that of the synthetic warning.
unfoldable pub is_genuine : Json → Bool
unfolding field_of is_number
is_genuine (obj fs) = not (is_number warning_achievement_id (field_of (codes "ID") fs))
is_genuine _ = false

unfoldable pub filter_achievements : Json → Json
unfolding keep_items keep_fields is_genuine
filter_achievements (arr xs) = arr (keep_items is_genuine xs)
filter_achievements (obj fs) = obj (keep_fields is_genuine fs)
filter_achievements j = j

-- `filter_warning_achievement_from_patch_payload`, of the fields of the payload.
unfoldable pub filter_patch : Fields → Fields
unfolding set_field field_of filter_achievements
filter_patch payload = elim (field_of (codes "PatchData") payload) [
  | some (obj patch) ↦ elim (field_of (codes "Achievements") patch) [
    | none ↦ payload
    | some found ↦
        set_field (codes "PatchData")
          (obj (set_field (codes "Achievements") (filter_achievements found) patch)) payload
  ]
  | _ ↦ payload
]

-- An id of an unlock that is kept: an int, positive and not that of the warning.
unfoldable pub is_unlock_id : Json → Bool
unfolding as_int
is_unlock_id v = elim (as_int v) [
  | none ↦ false
  | some n ↦ ltb 0 n && not (n == warning_achievement_id)
]

-- `filter_warning_achievement_from_unlocks_payload`
unfoldable pub filter_unlocks : Fields → Fields
unfolding set_field field_of keep_items is_unlock_id
filter_unlocks payload = elim (field_of (codes "UserUnlocks") payload) [
  | some (arr ids) ↦ set_field (codes "UserUnlocks") (arr (keep_items is_unlock_id ids)) payload
  | _ ↦ payload
]

-- The body that is returned, `CacheGameAuthError`, `CacheGameError`, or another exception.
pub data Patched : Type 0 where
  patched : Text → Patched
  auth_rejected : Patched
  refused : Patched
  raised : Patched

module _ (json : Codec) where
  open json use {dumps, loads}

  unfoldable pub refresh_game_patch :
      HttpGet → ℕ → ℕ → Credentials → Option Text → Store → Store × Patched
  refresh_game_patch answer clock game creds source s = elim answer [
    | HttpGet.http_error code ↦
        (s, if (code == 401) || (code == 403) then auth_rejected else refused)
    | HttpGet.failed ↦ (s, refused)
    | HttpGet.body text ↦ elim (loads text) [
      | none ↦ (s, refused)
      | some (obj payload) ↦ elim (field_of (codes "Success") payload) [
        | none ↦ (s, refused)
        | some success ↦
            let body = dumps (obj (filter_patch payload)) in
            if is_true success
            then (upsert_cache clock (Key.patch game creds.user) body none source s, patched body)
            else (s, refused)
      ]
      | some _ ↦ (s, raised)
    ]
  ]

  -- What goes wrong while the unlocks are fetched is passed over; a payload that is no dict raises.
  unfoldable pub cache_unlocks : HttpGet → ℕ → ℕ → Credentials → Store → Option Store
  cache_unlocks answer clock game creds s = elim answer [
    | HttpGet.body text ↦ elim (loads text) [
      | none ↦ some s
      | some (obj payload) ↦ elim (field_of (codes "Success") payload) [
        | none ↦ some s
        | some success ↦
            if is_true success
            then some (
                upsert_cache clock (Key.unlocks game creds.user)
                  (dumps (obj (filter_unlocks payload))) none none s)
            else some s
      ]
      | some _ ↦ none
    ]
    | _ ↦ some s
  ]
