-- ===== src/RomBrowser/Frame/Caching.antt =====
-- What caching a whole ROM, in linux/raofflineproxy/rom_browser.py, leaves alone.
use raoffline_proxy.Prelude.{
  ℕ, ◌≡◌, refl, ◌∙◌, Option, List, [], ◌∷◌, Text, arith, Option-cases, inl, inr,
}
use raoffline_proxy.Json.{Codec}
use raoffline_proxy.Storage.{Store}
use raoffline_proxy.Storage.Cache.{get_cache}
use raoffline_proxy.Auth.{Credentials}
use raoffline_proxy.Server.{Server}
use raoffline_proxy.RomCache.{
  Patched, patched, auth_rejected, refused, refresh_game_patch, cache_unlocks,
}
use raoffline_proxy.RomCache.Sessions.{cache_session}
use raoffline_proxy.RomCache.Game.{
  CacheGame, returned, auth_error, other_error, cache_achievementsets, cache_details, cache_game,
}
use raoffline_proxy.CacheQueue.{QueuedRom}
use raoffline_proxy.RomBrowser.{
  LocalGameIdAnswer, unanswered, answered, Fetched, Lookup, found, not_found, gave_up, known,
  unknown, http_error, fetch_game_id, look_further, look_up, persist_game_id_aliases,
}
use raoffline_proxy.RomBrowser.Caching.{
  cached_outcome, cache_found, cache_looked_up, cache_queued_rom,
}
use raoffline_proxy.RomBrowser.Frame.{
  IsForeign, remember-frame, aliases-frame, ask-frame, refresh-frame, unlocks-frame, sets-frame,
  session-frame,
}

module _ (k : Text) (f : IsForeign k) (json : Codec) (server : Server) (creds : Credentials)
    (clock : ℕ) where
  details-frame :
      (game : ℕ) (hash : Text) (s : Store) (ended : Patched)
      → get_cache (cache_details json server creds clock game hash (s, ended)).0 k ≡ get_cache s k
  unfolding cache_details
  details-frame game hash s auth_rejected = refl
  details-frame game hash s refused = refl
  details-frame game hash s Patched.raised = refl
  details-frame game hash s (patched text) =
      elim (Option-cases
        (cache_unlocks json (server.unlocks game creds.user creds.token) clock game creds s)) [
          | inl broken ↦ rw (broken, cache_details) refl
          | inr (s₁, one) ↦
              elim (Option-cases (
                cache_achievementsets json (server.achievementsets hash creds.user creds.token)
                  clock hash creds s₁)) [
                    | inl broken ↦
                        rw (one, broken, cache_details)
                          (unlocks-frame k f json _ clock game creds s s₁ one)
                    | inr (s₂, two) ↦
                        elim (Option-cases (cache_session json clock game creds.user s₂)) [
                          | inl broken ↦
                              rw (one, two, broken, cache_details)
                                (sets-frame k f json _ clock hash creds s₁ s₂ two
                                  ∙ unlocks-frame k f json _ clock game creds s s₁ one)
                          | inr (s₃, three) ↦
                              rw (one, two, three, cache_details)
                                (session-frame k f json clock game creds.user s₂ s₃ three
                                  ∙ (sets-frame k f json _ clock hash creds s₁ s₂ two
                                      ∙ unlocks-frame k f json _ clock game creds s s₁ one))
                        ]
                  ]
        ]

  game-frame :
      (game : ℕ) (hash : Text) (source : Option Text) (s : Store)
      → get_cache (cache_game json server creds clock game hash source s).0 k ≡ get_cache s k
  unfolding cache_game
  game-frame game hash source s =
      let answer = server.patch game creds.user creds.token in
      let got = refresh_game_patch json answer clock game creds source s in
      details-frame game hash got.0 got.1 ∙ refresh-frame k f json answer clock game creds source s

  fetch-frame :
      (hash : Text) (s : Store)
      → get_cache (fetch_game_id json server creds clock hash s).0 k ≡ get_cache s k
  unfolding fetch_game_id
  fetch-frame hash s =
      ground (arith, ask-frame k f json (server.game_id hash creds.user creds.token) clock hash s)

  further-frame :
      (hash : Text) (rest : Store → Store × Lookup)
      → ((s : Store) → get_cache (rest s).0 k ≡ get_cache s k)
      → (s : Store) (got : Fetched)
      → get_cache (look_further json hash rest (s, got)).0 k ≡ get_cache s k
  unfolding look_further
  further-frame hash rest h s (known game) = refl
  further-frame hash rest h s unknown = h s
  further-frame hash rest h s (http_error code) = refl
  further-frame hash rest h s Fetched.failed = refl

  look_up-frame :
      (hashes : List Text) (s : Store)
      → get_cache (look_up json server creds clock hashes s).0 k ≡ get_cache s k
  unfolding look_up
  look_up-frame [] s = refl
  look_up-frame (hash ∷ later) s =
      let got = fetch_game_id json server creds clock hash s in
      further-frame hash (look_up json server creds clock later) (look_up-frame later) got.0 got.1
      ∙ fetch-frame hash s

  outcome-frame :
      (game : ℕ) (user : Text) (rom : QueuedRom) (s : Store) (ended : CacheGame)
      → get_cache (cached_outcome clock game user rom (s, ended)).0 k ≡ get_cache s k
  unfolding cached_outcome
  outcome-frame game user rom s auth_error = refl
  outcome-frame game user rom s other_error = refl
  outcome-frame game user rom s returned =
      ground (arith, remember-frame k f clock game user rom.source_rom_path s)

  module _ (rom : QueuedRom) (known_game_ids : List ℕ) where
    found-frame :
        (game : ℕ) (hash : Text) (s : Store)
        → get_cache (cache_found json server creds clock rom known_game_ids game hash s).store k
          ≡ get_cache s k
    unfolding cache_found
    found-frame game hash s =
        let hashes = rom.hash ∷ rom.more_hashes in
        let s₁ = persist_game_id_aliases json clock hashes hash game s in
        let got = cache_game json server creds clock game hash rom.source_rom_path s₁ in
        ground (
          arith,
          remember-frame k f clock game creds.user rom.source_rom_path s₁,
          aliases-frame k f json clock hashes hash game s,
          outcome-frame game creds.user rom got.0 got.1,
          game-frame game hash rom.source_rom_path s₁,
        )

    looked_up-frame :
        (s : Store) (got : Lookup)
        → get_cache (cache_looked_up json server creds clock rom known_game_ids (s, got)).store k
          ≡ get_cache s k
    unfolding cache_looked_up
    looked_up-frame s (found game hash) = found-frame game hash s
    looked_up-frame s not_found = refl
    looked_up-frame s (gave_up outcome) = refl

    -- Caching a ROM, however it ends, changes nothing under a key that no game's data has.
    pub cache_queued_rom-frame :
        (local : LocalGameIdAnswer) (s : Store)
        → get_cache (cache_queued_rom json server creds clock rom known_game_ids local s).store k
          ≡ get_cache s k
    unfolding cache_queued_rom
    cache_queued_rom-frame (answered game hash) s = found-frame game hash s
    cache_queued_rom-frame unanswered s =
        let got = look_up json server creds clock (rom.hash ∷ rom.more_hashes) s in
        looked_up-frame got.0 got.1 ∙ look_up-frame (rom.hash ∷ rom.more_hashes) s
    cache_queued_rom-frame LocalGameIdAnswer.no_match s =
        let got = look_up json server creds clock (rom.hash ∷ rom.more_hashes) s in
        looked_up-frame got.0 got.1 ∙ look_up-frame (rom.hash ∷ rom.more_hashes) s
