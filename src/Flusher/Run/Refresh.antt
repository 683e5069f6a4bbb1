-- ===== src/Flusher/Run/Refresh.antt =====
-- `refresh_and_load_achievement_ids` of linux/raofflineproxy/flusher.py. Which game an achievement
-- belongs to (`find_achievement_game_ids`) is read by Flusher.Run before this part.
use raoffline_proxy.Prelude.{
  ℕ, Option, none, some, List, [], ◌∷◌, Text, ◌++◌, codes, any, ◌==◌, if◌then◌else◌,
}
use raoffline_proxy.Json.{Json, Items, obj, arr, str, nil, cons, end, Codec, field_of, as_int}
use raoffline_proxy.Storage.{Award, Store}
use raoffline_proxy.Server.{Server}
use raoffline_proxy.Auth.{Credentials, mark_token_invalid, clear_invalid_token}
use raoffline_proxy.RomCache.Unlocks.{GameIds, game_of}
use raoffline_proxy.RomCache.{Patched, patched, auth_rejected, refused, refresh_game_patch}

-- The games of the awards, each once, in the order of the awards.
unfoldable pub games_from : List ℕ → GameIds → List Award → List ℕ
unfolding game_of any
games_from games ids [] = games
games_from games ids (a ∷ later) =
    games_from
      (elim (game_of a.achievement_id ids) [
        | none ↦ games
        | some game ↦ if any (λ g. g == game) games then games else games ++ game ∷ []
      ])
      ids later

-- The ids in a list of achievements; an element that is no dict raises.
unfoldable pub ids_of_items : Items → Option (List ℕ)
unfolding field_of as_int
ids_of_items nil = some []
ids_of_items (cons (obj fs) vs) = elim (ids_of_items vs) [
  | none ↦ none
  | some ids ↦ elim (field_of (codes "ID") fs) [
    | none ↦ some ids
    | some v ↦ elim (as_int v) [ none ↦ some ids | some n ↦ some (n ∷ ids) ]
  ]
]
ids_of_items (cons v vs) = none

-- What the loop over `Achievements` collects; a dict or a text is walked over its keys or characters.
unfoldable pub ids_of_achievements : Json → Option (List ℕ)
unfolding ids_of_items
ids_of_achievements (arr vs) = ids_of_items vs
ids_of_achievements (obj end) = some []
ids_of_achievements (str []) = some []
ids_of_achievements _ = none

unfoldable pub ids_of_payload : Json → Option (List ℕ)
unfolding ids_of_achievements field_of
ids_of_payload (obj payload) = elim (field_of (codes "PatchData") payload) [
  | none ↦ some []
  | some (obj patch) ↦ elim (field_of (codes "Achievements") patch) [
    | none ↦ some []
    | some found ↦ ids_of_achievements found
  ]
  | some _ ↦ none
]
ids_of_payload _ = none

pub data Refreshed : Type 0 where
  -- the ids in the live data, and the games
  loaded : List ℕ → List ℕ → Refreshed
  not_refreshed : Refreshed
  raised : Refreshed

-- What a game's data gives: the ids of its achievements, or an error.
unfoldable pub ids_read : Codec → Text → Refreshed
unfolding ids_of_payload
ids_read json text = elim (json.loads text) [
  | none ↦ not_refreshed
  | some payload ↦ elim (ids_of_payload payload) [ none ↦ not_refreshed | some ids ↦ loaded ids [] ]
]

module _ (json : Codec) (server : Server) (clock : ℕ) (creds : Credentials) where
  -- The body of the loop after `refresh_game_patch`.
  unfoldable pub read_patched : Store × Patched → Store × Refreshed
  unfolding mark_token_invalid clear_invalid_token ids_read
  read_patched (s, auth_rejected) = (mark_token_invalid clock creds.token s, not_refreshed)
  read_patched (s, refused) = (s, not_refreshed)
  read_patched (s, Patched.raised) = (s, Refreshed.raised)
  read_patched (s, patched text) = (clear_invalid_token s, ids_read json text)

  unfoldable pub refresh_games : List ℕ → List ℕ → List ℕ → Store → Store × Refreshed
  unfolding refresh_game_patch read_patched
  refresh_games games known [] s = (s, loaded known games)
  refresh_games games known (game ∷ later) s =
      let (s', answer) = read_patched (
        refresh_game_patch json (server.patch game creds.user creds.token) clock game creds none
          s) in
      elim answer [
        | loaded ids none_else ↦ refresh_games games (known ++ ids) later s'
        | not_refreshed ↦ (s', not_refreshed)
        | Refreshed.raised ↦ (s', Refreshed.raised)
      ]

  unfoldable pub refresh_and_load : GameIds → List Award → Store → Store × Refreshed
  unfolding refresh_games games_from
  refresh_and_load ids awards s =
      let games = games_from [] ids awards in refresh_games games [] games s
