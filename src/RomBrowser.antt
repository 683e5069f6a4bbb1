-- ===== src/RomBrowser.antt =====
-- The ROMs that wait in linux/raofflineproxy/rom_browser.py: which game a ROM's hashes name, what is
-- remembered of it, and caching one of them. Hashing ROMs and saving icons is left out.
pub mod Caching
pub mod Drain
pub mod Frame
pub mod Local
use raoffline_proxy.Prelude.{
  ℕ, ◌-◌, Bool, true, false, ◌&&◌, ◌||◌, not, Option, none, some, List, [], ◌∷◌, ◌++◌, map, Text,
  codes, ltb, ◌==◌, if◌then◌else◌, text_eq, is_empty, is_some,
}
use raoffline_proxy.CacheKeys.{Prefix, prefix_text, strip, parse_game_id_from_patch_key}
use raoffline_proxy.CacheKeys.Key
use raoffline_proxy.Json.{Json, bool, num, obj, end, field, Codec, field_of, as_int}
use raoffline_proxy.Storage.{Entry, Store}
use raoffline_proxy.Storage.Cache.{get_cache, upsert_cache, cache_keys_by_prefix}
use raoffline_proxy.Auth.{Credentials}
use raoffline_proxy.Server.{HttpGet, Server}
use raoffline_proxy.RomCache.Unlocks.{member}
use raoffline_proxy.RomCache.Game.{CacheGame, returned, auth_error, other_error, cache_game}
use raoffline_proxy.CacheQueue.{QueuedRom, after_failed_attempt, enqueue, update, remove}

-- GAMEID_MISS_TTL_MS
abbrev pub game_id_miss_ttl : ℕ
game_id_miss_ttl = 604800000

unfoldable pub slashed : Text → Text
slashed = map (λ c. if c == 92 then 47 else c)

-- The parts of a path that are not empty, where some of a part is read already.
unfoldable pub path_parts : Text → Text → List Text
path_parts part [] = if is_empty part then [] else part ∷ []
path_parts part (c ∷ s) = elim (c == 47) [
  | true ↦ elim part [ [] ↦ path_parts [] s | d ∷ rest ↦ (d ∷ rest) ∷ path_parts [] s ]
  | false ↦ path_parts (part ++ c ∷ []) s
]

-- The last two parts.
unfoldable pub last_parts : List Text → Text
last_parts [] = codes "/"
last_parts (a ∷ []) = 47 ∷ a
last_parts (a ∷ b ∷ []) = 47 ∷ (a ++ 47 ∷ b)
last_parts (a ∷ b ∷ c ∷ later) = last_parts (b ∷ c ∷ later)

unfoldable pub normalize_cached_rom_path : Text → Text
unfolding slashed strip path_parts last_parts
normalize_cached_rom_path path = last_parts (path_parts [] (strip (slashed path)))

unfoldable pub present {ℓ} : {A : Type ℓ} → List (Option A) → List A
present [] = []
present (none ∷ os) = present os
present (some a ∷ os) = a ∷ present os

unfoldable pub cached_game_ids : Store → List ℕ
unfolding cache_keys_by_prefix parse_game_id_from_patch_key prefix_text present
cached_game_ids s =
    present (map parse_game_id_from_patch_key (cache_keys_by_prefix s (prefix_text Prefix.patch)))

-- `isinstance(game_id, int) and game_id > 0`
unfoldable pub positive_id : Option Json → Option ℕ
unfolding as_int
positive_id none = none
positive_id (some v) = elim (as_int v) [ none ↦ none | some n ↦ if ltb 0 n then some n else none ]

-- `payload.get("Success") is True`
unfoldable pub is_success : Option Json → Bool
is_success (some (bool true)) = true
is_success _ = false

-- The three answers that are given.
pub data LocalGameIdAnswer : Type 0 where
  unanswered : LocalGameIdAnswer
  answered : ℕ → Text → LocalGameIdAnswer
  no_match : LocalGameIdAnswer

pub data QueuedRomOutcome : Type 0 where
  cached no_match already_cached failed auth_rejected : QueuedRomOutcome

-- What `fetch_game_id` returns or raises.
pub data Fetched : Type 0 where
  known : ℕ → Fetched
  unknown : Fetched
  http_error : ℕ → Fetched
  failed : Fetched

-- What the walk over the hashes of a ROM ends with: a game and its hash, none, or an outcome at once.
pub data Lookup : Type 0 where
  found : ℕ → Text → Lookup
  not_found : Lookup
  gave_up : QueuedRomOutcome → Lookup

module _ (json : Codec) where
  open json use {dumps, loads}

  unfoldable pub game_id_from_response : Text → Option ℕ
  unfolding field_of positive_id
  game_id_from_response body = elim (loads body) [
    | some (obj payload) ↦ positive_id (field_of (codes "GameID") payload)
    | _ ↦ none
  ]

  unfoldable pub is_cacheable_game_id_response : Text → Bool
  unfolding game_id_from_response field_of is_success
  is_cacheable_game_id_response body = elim (loads body) [
    | some (obj payload) ↦
        is_some (game_id_from_response body) || is_success (field_of (codes "Success") payload)
    | _ ↦ false
  ]

  unfoldable pub local_game_id_answer : Store → List Text → ℕ → LocalGameIdAnswer
  unfolding get_cache game_id_from_response
  local_game_id_answer s [] now = LocalGameIdAnswer.no_match
  local_game_id_answer s (hash ∷ later) now =
      let rest = local_game_id_answer s later now in
      elim (get_cache s (Key.game_id hash)) [
        | none ↦ unanswered
        | some e ↦ elim (game_id_from_response e.response_body) [
          | some game ↦ answered game hash
          | none ↦ if ltb (now - e.cached_at) game_id_miss_ttl then rest else unanswered
        ]
      ]

  -- `http_get`, and what is kept of its answer.
  unfoldable pub ask_game_id : HttpGet → ℕ → Text → Store → Store × Fetched
  unfolding upsert_cache is_cacheable_game_id_response field_of positive_id
  ask_game_id answer clock hash s = elim answer [
    | HttpGet.http_error code ↦ (s, http_error code)
    | HttpGet.failed ↦ (s, Fetched.failed)
    | HttpGet.body text ↦ elim (loads text) [
      | some (obj payload) ↦ (
        if is_cacheable_game_id_response text
            then upsert_cache clock (Key.game_id hash) text none none s
            else s,
        elim (positive_id (field_of (codes "GameID") payload)) [
          | none ↦ unknown
          | some game ↦ known game
        ],
      )
      | _ ↦ (s, Fetched.failed)
    ]
  ]

  unfoldable pub fetch_game_id : Server → Credentials → ℕ → Text → Store → Store × Fetched
  unfolding get_cache game_id_from_response ask_game_id
  fetch_game_id server creds clock hash s =
      let ask = ask_game_id (server.game_id hash creds.user creds.token) clock hash s in
      elim (get_cache s (Key.game_id hash)) [
        | none ↦ ask
        | some e ↦ elim (game_id_from_response e.response_body) [
          | some game ↦ (s, known game)
          | none ↦ if ltb (clock - e.cached_at) game_id_miss_ttl then (s, unknown) else ask
        ]
      ]

  -- One turn of the walk, with the walk over the hashes that are left.
  unfoldable pub look_further : Text → (Store → Store × Lookup) → Store × Fetched → Store × Lookup
  look_further hash rest (s, known game) = (s, found game hash)
  look_further hash rest (s, unknown) = rest s
  look_further hash rest (s, http_error code) = (
    s,
    gave_up (
        if (code == 401) || (code == 403)
        then QueuedRomOutcome.auth_rejected
        else QueuedRomOutcome.failed),
  )
  look_further hash rest (s, Fetched.failed) = (s, gave_up QueuedRomOutcome.failed)

  -- `for hash_value in rom.hashes`
  unfoldable pub look_up : Server → Credentials → ℕ → List Text → Store → Store × Lookup
  unfolding look_further fetch_game_id
  look_up server creds clock [] s = (s, not_found)
  look_up server creds clock (hash ∷ later) s =
      look_further hash (look_up server creds clock later) (fetch_game_id server creds clock hash s)

  unfoldable pub alias_body : ℕ → Text
  alias_body game = dumps (obj (field (codes "GameID") (num game) end))

  unfoldable pub persist_game_id_aliases : ℕ → List Text → Text → ℕ → Store → Store
  unfolding upsert_cache alias_body
  persist_game_id_aliases clock [] used game s = s
  persist_game_id_aliases clock (hash ∷ later) used game s =
      persist_game_id_aliases clock later used game (
        if text_eq hash used
        then s
        else upsert_cache clock (Key.game_id hash) (alias_body game) none none s)
