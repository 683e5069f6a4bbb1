-- ===== src/RomBrowser/Local.antt =====
-- The local answer about a ROM of linux/raofflineproxy/rom_browser.py against the walk that asks
-- RetroAchievements.
use raoffline_proxy.Prelude.{
  ℕ, ◌-◌, ◌≡◌, refl, ap, List, [], ◌∷◌, Text, ltb, Bool-cases, Option-cases, inl, inr,
}
use raoffline_proxy.CacheKeys.Key
use raoffline_proxy.Json.{Codec}
use raoffline_proxy.Storage.{Store}
use raoffline_proxy.Storage.Cache.{get_cache}
use raoffline_proxy.Auth.{Credentials}
use raoffline_proxy.Server.{Server}
use raoffline_proxy.RomBrowser.{
  LocalGameIdAnswer, unanswered, answered, no_match, Lookup, found, not_found, game_id_miss_ttl,
  known, unknown, game_id_from_response, local_game_id_answer, fetch_game_id, look_further, look_up,
}

-- What a local answer says of the walk over the hashes.
abbrev pub Agrees : LocalGameIdAnswer → Store → Store × Lookup → Type 0
Agrees no_match s walk = walk ≡ (s, not_found)
Agrees (answered game hash) s walk = walk ≡ (s, found game hash)
Agrees unanswered s walk = Unit

module _ (json : Codec) (server : Server) (creds : Credentials) (now : ℕ) where
  -- Where the cache knows the answer, the walk that may ask RetroAchievements gives the same one, whatever the
  -- server would answer, and stores nothing.
  pub local_game_id_answer-look_up :
      (s : Store) (hashes : List Text)
      → Agrees (local_game_id_answer json s hashes now) s (look_up json server creds now hashes s)
  unfolding local_game_id_answer look_up
  local_game_id_answer-look_up s [] = refl
  local_game_id_answer-look_up s (hash ∷ later) =
      elim (Option-cases (get_cache s (Key.game_id hash))) [
        | inl missing ↦ rw (missing, local_game_id_answer) tt
        | inr (e, there) ↦ elim (Option-cases (game_id_from_response json e.response_body)) [
          | inr (game, says) ↦
              let got : fetch_game_id json server creds now hash s ≡ (s, known game) =
                rw (there, says, fetch_game_id) refl in
              rw (there, says, local_game_id_answer)
                (unfold look_further in
                  ap (look_further json hash (look_up json server creds now later)) got)
          | inl no_id ↦ elim (Bool-cases (ltb (now - e.cached_at) game_id_miss_ttl)) [
            | inr old ↦ rw (there, no_id, old, local_game_id_answer) tt
            | inl young ↦
                let got : fetch_game_id json server creds now hash s ≡ (s, unknown) =
                  rw (there, no_id, young, fetch_game_id) refl in
                let answer : local_game_id_answer json s (hash ∷ later) now
                    ≡ local_game_id_answer json s later now =
                  rw (there, no_id, young, local_game_id_answer) refl in
                let walk : look_up json server creds now (hash ∷ later) s
                    ≡ look_up json server creds now later s =
                  unfold look_further in
                  ap (look_further json hash (look_up json server creds now later)) got in
                rw (answer, walk) (local_game_id_answer-look_up s later)
          ]
        ]
      ]
