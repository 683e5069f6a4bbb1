-- ===== src/RomCache/Game.antt =====
-- Caching a whole game: `filter_warning_achievement_definitions`, `cache_achievementsets` and `cache_game`
-- of linux/raofflineproxy/rom_cache.py. Downloading images is left out.
use raoffline_proxy.Prelude.{ℕ, Bool, true, false, Option, none, some, Text, codes, if◌then◌else◌}
use raoffline_proxy.Json.{
  Json, Items, Fields, arr, obj, nil, cons, Codec, field_of, set_field, is_true, keep_items,
}
use raoffline_proxy.CacheKeys.Key
use raoffline_proxy.Storage.{Store}
use raoffline_proxy.Storage.Cache.{upsert_cache}
use raoffline_proxy.Auth.{Credentials}
use raoffline_proxy.Server.{HttpGet, Server}
use raoffline_proxy.RomCache.{
  Patched, patched, auth_rejected, refused, is_number, refresh_game_patch, cache_unlocks,
}
use raoffline_proxy.RomCache.Sessions.{cache_session}

-- RC_ACHIEVEMENT_FLAG_CORE
abbrev core_flag : ℕ
core_flag = 3

-- A dict whose flags, if it has any, are those of a core achievement.
unfoldable pub is_core : Json → Bool
unfolding field_of is_number
is_core (obj fs) = elim (field_of (codes "Flags") fs) [
  | none ↦ true
  | some flags ↦ is_number core_flag (some flags)
]
is_core _ = false

unfoldable pub core_set : Json → Json
unfolding field_of set_field keep_items is_core
core_set (obj fs) = elim (field_of (codes "Achievements") fs) [
  | some (arr found) ↦ obj (set_field (codes "Achievements") (arr (keep_items is_core found)) fs)
  | _ ↦ obj fs
]
core_set v = v

unfoldable pub core_sets : Items → Items
unfolding core_set
core_sets nil = nil
core_sets (cons v vs) = cons (core_set v) (core_sets vs)

-- Of the fields of the payload.
unfoldable pub filter_warning_achievement_definitions : Fields → Fields
unfolding field_of set_field core_sets
filter_warning_achievement_definitions payload = elim (field_of (codes "Sets") payload) [
  | some (arr sets) ↦ set_field (codes "Sets") (arr (core_sets sets)) payload
  | _ ↦ payload
]

-- How `cache_game` ends: it returns, or raises `CacheGameAuthError` or anything else.
pub data CacheGame : Type 0 where
  returned : CacheGame
  auth_error : CacheGame
  other_error : CacheGame

module _ (json : Codec) where
  open json use {dumps, loads}

  -- What goes wrong while the sets are fetched is passed over; a payload that is no dict raises.
  unfoldable pub cache_achievementsets : HttpGet → ℕ → Text → Credentials → Store → Option Store
  unfolding field_of filter_warning_achievement_definitions is_true
  cache_achievementsets answer clock hash creds s = elim answer [
    | HttpGet.body text ↦ elim (loads text) [
      | none ↦ some s
      | some (obj payload) ↦ elim (field_of (codes "Success") payload) [
        | none ↦ some s
        | some success ↦
            if is_true success
            then some (
                upsert_cache clock (Key.achievementsets hash creds.user)
                  (dumps (obj (filter_warning_achievement_definitions payload))) none none s)
            else some s
      ]
      | some _ ↦ none
    ]
    | _ ↦ some s
  ]

  -- The unlocks, the sets and the session, after the game's data.
  unfoldable pub cache_details :
      Server → Credentials → ℕ → ℕ → Text → Store × Patched → Store × CacheGame
  unfolding cache_unlocks cache_achievementsets cache_session
  cache_details server creds clock game hash (s, auth_rejected) = (s, auth_error)
  cache_details server creds clock game hash (s, refused) = (s, other_error)
  cache_details server creds clock game hash (s, Patched.raised) = (s, other_error)
  cache_details server creds clock game hash (s, patched text) =
      elim (cache_unlocks json (server.unlocks game creds.user creds.token) clock game creds s) [
        | none ↦ (s, other_error)
        | some s₁ ↦
            elim (cache_achievementsets (server.achievementsets hash creds.user creds.token) clock
              hash creds s₁) [
                | none ↦ (s₁, other_error)
                | some s₂ ↦ elim (cache_session json clock game creds.user s₂) [
                  | none ↦ (s₂, other_error)
                  | some s₃ ↦ (s₃, returned)
                ]
              ]
      ]

  unfoldable pub cache_game :
      Server → Credentials → ℕ → ℕ → Text → Option Text → Store → Store × CacheGame
  unfolding refresh_game_patch cache_details
  cache_game server creds clock game hash source s =
      cache_details server creds clock game hash (
        refresh_game_patch json (server.patch game creds.user creds.token) clock game creds source
          s)
