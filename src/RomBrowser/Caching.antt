-- ===== src/RomBrowser/Caching.antt =====
-- Caching a ROM that waits, and queueing one: `cache_queued_rom`, `record_failed_attempt` and
-- `enqueue_rom_if_needed` of linux/raofflineproxy/rom_browser.py.
use raoffline_proxy.Prelude.{
  ℕ, Bool, false, ◌&&◌, not, Option, none, some, List, ◌∷◌, Text, if◌then◌else◌, text_eq, is_empty,
}
use raoffline_proxy.CacheKeys.Key
use raoffline_proxy.Json.{Json, Codec}
use raoffline_proxy.Storage.{Store}
use raoffline_proxy.Storage.Cache.{get_cache, upsert_cache}
use raoffline_proxy.Auth.{Credentials}
use raoffline_proxy.Server.{Server}
use raoffline_proxy.RomCache.Unlocks.{member}
use raoffline_proxy.RomCache.Game.{CacheGame, returned, auth_error, other_error, cache_game}
use raoffline_proxy.CacheQueue.{QueuedRom, after_failed_attempt, enqueue, update, remove}
use raoffline_proxy.RomBrowser.{
  LocalGameIdAnswer, Lookup, QueuedRomOutcome, answered, found, gave_up, local_game_id_answer,
  look_up, normalize_cached_rom_path, not_found, persist_game_id_aliases, unanswered,
}

unfoldable pub remember_source_rom_path : ℕ → ℕ → Text → Option Text → Store → Store
unfolding get_cache upsert_cache normalize_cached_rom_path
remember_source_rom_path clock game user none s = s
remember_source_rom_path clock game user (some path) s = elim (get_cache s (Key.patch game user)) [
  | none ↦ s
  | some e ↦
      upsert_cache clock (Key.patch game user) e.response_body none
        (some (normalize_cached_rom_path path)) s
]

-- `rom.source_rom_path and entry["sourceRomPath"] != rom.source_rom_path`
unfoldable pub differs_from : Option Text → Option Text → Bool
differs_from none stored = false
differs_from (some path) none = not (is_empty path)
differs_from (some path) (some p) = not (is_empty path) && not (text_eq p path)

module _ (clock game : ℕ) (user : Text) (rom : QueuedRom) where
  -- The outcome of `cache_game`.
  unfoldable pub cached_outcome : Store × CacheGame → Store × QueuedRomOutcome
  unfolding get_cache remember_source_rom_path differs_from
  cached_outcome (s, auth_error) = (s, QueuedRomOutcome.auth_rejected)
  cached_outcome (s, other_error) = (s, QueuedRomOutcome.failed)
  cached_outcome (s, returned) = elim (get_cache s (Key.patch game user)) [
    | none ↦ (s, QueuedRomOutcome.failed)
    | some e ↦ (
      if differs_from rom.source_rom_path e.source_rom_path
          then remember_source_rom_path clock game user rom.source_rom_path s
          else s,
      QueuedRomOutcome.cached,
    )
  ]

-- What is found of a ROM: nothing, or a game that is cached.
pub record Handled : Type 0 where
  pub store : Store
  pub outcome : QueuedRomOutcome
  pub game_id : Option ℕ

module _ (json : Codec) (server : Server) (creds : Credentials) (clock : ℕ) (rom : QueuedRom)
    (known_game_ids : List ℕ) where
  unfoldable pub cache_found : ℕ → Text → Store → Handled
  unfolding persist_game_id_aliases remember_source_rom_path cache_game cached_outcome
  cache_found game hash s =
      let s₁ = persist_game_id_aliases json clock (rom.hash ∷ rom.more_hashes) hash game s in
      let stored =
        cached_outcome clock game creds.user rom
          (cache_game json server creds clock game hash rom.source_rom_path s₁) in
      if member game known_game_ids
      then record {
        store = remember_source_rom_path clock game creds.user rom.source_rom_path s₁;
        outcome = QueuedRomOutcome.already_cached;
        game_id = some game;
      }
      else record { store = stored.0; outcome = stored.1; game_id = some game }

  unfoldable pub cache_looked_up : Store × Lookup → Handled
  unfolding cache_found
  cache_looked_up (s, found game hash) = cache_found game hash s
  cache_looked_up (s, not_found) = record {
    store = s;
    outcome = QueuedRomOutcome.no_match;
    game_id = none;
  }
  cache_looked_up (s, gave_up outcome) = record { store = s; outcome = outcome; game_id = none }

  unfoldable pub cache_queued_rom : LocalGameIdAnswer → Store → Handled
  unfolding cache_looked_up cache_found look_up
  cache_queued_rom (answered game hash) s = cache_found game hash s
  cache_queued_rom unanswered s =
      cache_looked_up (look_up json server creds clock (rom.hash ∷ rom.more_hashes) s)
  cache_queued_rom LocalGameIdAnswer.no_match s =
      cache_looked_up (look_up json server creds clock (rom.hash ∷ rom.more_hashes) s)

module _ (json : Codec) (show : Json → Text) where
  unfoldable pub record_failed_attempt : ℕ → QueuedRom → Store → Store
  unfolding after_failed_attempt remove update
  record_failed_attempt clock rom s = elim (after_failed_attempt rom) [
    | none ↦ remove rom s
    | some retry ↦ update json show clock retry s
  ]

  -- The ROM, if it waits now, and whether this call queued it. `path` is the file's path, `label` its
  -- name, and the first of the hashes is given.
  unfoldable pub enqueue_rom_if_needed :
      ℕ → Text → List Text → List ℕ → Text → Text → Store → Store × Option (QueuedRom × Bool)
  unfolding local_game_id_answer enqueue normalize_cached_rom_path
  enqueue_rom_if_needed now hash more known_game_ids path label s =
      let rom : QueuedRom = record {
        hash = hash;
        more_hashes = more;
        source_rom_path = some (normalize_cached_rom_path path);
        label = label;
        queued_at = now;
        attempts = 0;
      } in
      let queued = enqueue json show now rom s in
      let added : Store × Option (QueuedRom × Bool) = (queued.0, some (rom, queued.1)) in
      elim (local_game_id_answer json s (hash ∷ more) now) [
        | LocalGameIdAnswer.no_match ↦ (s, none)
        | answered game used ↦ if member game known_game_ids then (s, none) else added
        | unanswered ↦ added
      ]
