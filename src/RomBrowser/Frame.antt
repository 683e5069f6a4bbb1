-- ===== src/RomBrowser/Frame.antt =====
-- What caching a ROM of linux/raofflineproxy/rom_browser.py leaves alone.
pub mod Caching
use raoffline_proxy.Prelude.{
  ℕ, ◌≡◌, refl, ◌∙◌, Bool, true, false, Option, none, some, List, [], ◌∷◌, Text, arith, starts_with,
  starts_with-append, text_eq, text_eq_sound, Bool-cases, Option-cases, inl, inr,
}
use raoffline_proxy.CacheKeys.{Prefix, has_prefix}
use raoffline_proxy.CacheKeys.Key
use raoffline_proxy.Json.{Json, Codec}
use raoffline_proxy.Storage.{Store}
use raoffline_proxy.Storage.Cache.{get_cache, upsert_cache}
use raoffline_proxy.Storage.CacheLaws.{get_cache-upsert}
use raoffline_proxy.Auth.{Credentials}
use raoffline_proxy.Server.{HttpGet, Server}
use raoffline_proxy.RomCache.{
  Patched, patched, auth_rejected, refused, refresh_game_patch, cache_unlocks,
}
use raoffline_proxy.RomCache.Sessions.{cache_session}
use raoffline_proxy.RomCache.Game.{
  CacheGame, returned, auth_error, other_error, cache_achievementsets, cache_details, cache_game,
}
use raoffline_proxy.CacheQueue.{QueuedRom}
use raoffline_proxy.RomBrowser.{
  LocalGameIdAnswer, unanswered, answered, Fetched, Lookup, found, not_found, gave_up, known,
  unknown, http_error, ask_game_id, fetch_game_id, look_further, look_up, persist_game_id_aliases,
}
use raoffline_proxy.RomBrowser.Caching.{
  Handled, remember_source_rom_path, cached_outcome, cache_found, cache_looked_up, cache_queued_rom,
}

-- A key that no game's data is stored under.
pub record IsForeign (k : Text) : Type 0 where
  pub gameid : has_prefix k Prefix.gameid ≡ false
  pub patch : has_prefix k Prefix.patch ≡ false
  pub unlocks : has_prefix k Prefix.unlocks ≡ false
  pub achievementsets : has_prefix k Prefix.achievementsets ≡ false
  pub startsession : has_prefix k Prefix.startsession ≡ false

module _ (k : Text) where
  pub apart :
      (key : Text) (p : Prefix)
      → has_prefix key p ≡ true
      → has_prefix k p ≡ false
      → text_eq key k ≡ false
  apart key p here away = elim (Bool-cases (text_eq key k)) [
    | inr other ↦ other
    | inl same ↦ let e : key ≡ k = text_eq_sound key k same in absurd cc
  ]

  pub upsert-frame :
      (p : Prefix) (clock : ℕ) (key body : Text) (at : Option ℕ) (source : Option Text) (s : Store)
      → has_prefix key p ≡ true
      → has_prefix k p ≡ false
      → get_cache (upsert_cache clock key body at source s) k ≡ get_cache s k
  unfolding upsert_cache
  upsert-frame p clock key body at source s here away =
      get_cache-upsert s key body k source _ ∙ rw (apart key p here away) refl

  module _ (f : IsForeign k) where
    patch-frame :
        (clock game : ℕ) (user body : Text) (source : Option Text) (s : Store)
        → get_cache (upsert_cache clock (Key.patch game user) body none source s) k ≡ get_cache s k
    unfolding Key.patch
    patch-frame clock game user body source s =
        upsert-frame Prefix.patch clock (Key.patch game user) body none source s
          (starts_with-append _ _) f.patch

    game_id-frame :
        (clock : ℕ) (hash body : Text) (s : Store)
        → get_cache (upsert_cache clock (Key.game_id hash) body none none s) k ≡ get_cache s k
    unfolding Key.game_id
    game_id-frame clock hash body s =
        upsert-frame Prefix.gameid clock (Key.game_id hash) body none none s
          (starts_with-append _ _) f.gameid

    unlocks_key-frame :
        (clock game : ℕ) (user body : Text) (s : Store)
        → get_cache (upsert_cache clock (Key.unlocks game user) body none none s) k ≡ get_cache s k
    unfolding Key.unlocks
    unlocks_key-frame clock game user body s =
        upsert-frame Prefix.unlocks clock (Key.unlocks game user) body none none s
          (starts_with-append _ _) f.unlocks

    achievementsets_key-frame :
        (clock : ℕ) (scope user body : Text) (s : Store)
        → get_cache (upsert_cache clock (Key.achievementsets scope user) body none none s) k
          ≡ get_cache s k
    unfolding Key.achievementsets
    achievementsets_key-frame clock scope user body s =
        upsert-frame Prefix.achievementsets clock (Key.achievementsets scope user) body none none s
          (starts_with-append _ _) f.achievementsets

    startsession_key-frame :
        (clock game : ℕ) (user body : Text) (s : Store)
        → get_cache (upsert_cache clock (Key.start_session game user) body none none s) k
          ≡ get_cache s k
    unfolding Key.start_session
    startsession_key-frame clock game user body s =
        upsert-frame Prefix.startsession clock (Key.start_session game user) body none none s
          (starts_with-append _ _) f.startsession

    pub remember-frame :
        (clock game : ℕ) (user : Text) (path : Option Text) (s : Store)
        → get_cache (remember_source_rom_path clock game user path s) k ≡ get_cache s k
    unfolding remember_source_rom_path
    remember-frame clock game user none s = refl
    remember-frame clock game user (some path) s =
        elim (Option-cases (get_cache s (Key.patch game user))) [
          | inl missing ↦ rw (missing, remember_source_rom_path) refl
          | inr (e, there) ↦
              rw (there, remember_source_rom_path) (patch-frame clock game user _ _ s)
        ]

    module _ (json : Codec) where
      pub aliases-frame :
          (clock : ℕ) (hashes : List Text) (used : Text) (game : ℕ) (s : Store)
          → get_cache (persist_game_id_aliases json clock hashes used game s) k ≡ get_cache s k
      unfolding persist_game_id_aliases
      aliases-frame clock [] used game s = refl
      aliases-frame clock (hash ∷ later) used game s = elim (Bool-cases (text_eq hash used)) [
        | inl same ↦ rw same (aliases-frame clock later used game s)
        | inr other ↦
            rw other (aliases-frame clock later used game _ ∙ game_id-frame clock hash _ s)
      ]

      pub ask-frame :
          (answer : HttpGet) (clock : ℕ) (hash : Text) (s : Store)
          → get_cache (ask_game_id json answer clock hash s).0 k ≡ get_cache s k
      unfolding ask_game_id
      ask-frame answer clock hash s = grind (arith, game_id-frame clock hash)

      pub refresh-frame :
          (answer : HttpGet) (clock game : ℕ) (creds : Credentials) (source : Option Text)
          (s : Store)
          → get_cache (refresh_game_patch json answer clock game creds source s).0 k ≡ get_cache s k
      unfolding refresh_game_patch
      refresh-frame answer clock game creds source s =
          grind (arith, patch-frame clock game creds.user)

      pub unlocks-frame :
          (answer : HttpGet) (clock game : ℕ) (creds : Credentials) (s s' : Store)
          → cache_unlocks json answer clock game creds s ≡ some s'
          → get_cache s' k ≡ get_cache s k
      unfolding cache_unlocks
      unlocks-frame answer clock game creds s s' h =
          grind (arith, unlocks_key-frame clock game creds.user)

      pub sets-frame :
          (answer : HttpGet) (clock : ℕ) (hash : Text) (creds : Credentials) (s s' : Store)
          → cache_achievementsets json answer clock hash creds s ≡ some s'
          → get_cache s' k ≡ get_cache s k
      unfolding cache_achievementsets
      sets-frame answer clock hash creds s s' h =
          grind (arith, achievementsets_key-frame clock hash creds.user)

      pub session-frame :
          (clock game : ℕ) (user : Text) (s s' : Store)
          → cache_session json clock game user s ≡ some s'
          → get_cache s' k ≡ get_cache s k
      unfolding cache_session
      session-frame clock game user s s' h = grind (arith, startsession_key-frame clock game user)
