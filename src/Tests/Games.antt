-- ===== src/Tests/Games.antt =====
-- The games of achievements.
use raoffline_proxy.Prelude.{
  ◌≡◌, refl, ◌&&◌, some, none, [], ◌∷◌, codes, All, ℕ, ltb, if◌then◌else◌, starts_with, drop_prefix,
}
use raoffline_proxy.Json.{Json, num, str, arr, obj, nil, cons, end, field}
use raoffline_proxy.Json.Plain.{plain_codec, dumps, loads}
use raoffline_proxy.CacheKeys.{before_colon, is_space}
use raoffline_proxy.CacheKeys.Decimal.{is_digits, int_of}
use raoffline_proxy.Storage.{Store}
use raoffline_proxy.Storage.Cache.{entries_by_prefix}
use raoffline_proxy.RomCache.Unlocks.{GameIds, game_of, member, merge_cached}
use raoffline_proxy.RomCache.GameIds.{entry_game_ids}
use raoffline_proxy.RomCache.GameIds.Search.{
  find_achievement_game_ids, likely_first_prefixes, mentions_wanted,
}
use raoffline_proxy.RomCache.GameIds.Found.{
  IsReadable, first_game, find_achievement_game_ids-first_game,
}
use raoffline_proxy.Tests.Data.{game_entry}

-- The data of a game with one achievement.
abbrev patch_payload : Json
patch_payload = obj (
    field (codes "PatchData")
      (obj (
        field (codes "Achievements")
          (arr (
            cons
              (obj (
                field (codes "ID") (num 5) (field (codes "Title") (str (codes "\"ID\" : 5.")) end)))
              nil))
          end))
      end)

abbrev one_game : Store
one_game = record {
  api_cache = record game_entry { response_body = dumps patch_payload } ∷ [];
  pending_awards = [];
}

one_game-IsReadable :
    All
      (λ prefix.
        All
          (IsReadable plain_codec prefix (merge_cached [] (5 ∷ [])))
          (entries_by_prefix one_game prefix))
      (likely_first_prefixes (some 7) one_game)
unfolding entry_game_ids loads dumps starts_with is_digits before_colon drop_prefix int_of
    mentions_wanted likely_first_prefixes entries_by_prefix merge_cached is_space
one_game-IsReadable = ((refl, tt), ((refl, tt), (tt, tt)))

find_achievement_game_ids-first_game_example :
    (found : GameIds) × (find_achievement_game_ids plain_codec (some 7) (5 ∷ []) one_game
      ≡ some found)
    × ((n : ℕ)
        → game_of n found ≡ (
            if ltb 0 n && member n (5 ∷ [])
            then first_game plain_codec
                (merge_cached [] (5 ∷ []))
                n
                one_game
                (likely_first_prefixes (some 7) one_game)
            else none))
find_achievement_game_ids-first_game_example =
    find_achievement_game_ids-first_game plain_codec (some 7) (5 ∷ []) one_game one_game-IsReadable

-- The search finds the game.
one_game-found :
    find_achievement_game_ids plain_codec (some 7) (5 ∷ []) one_game ≡ some ((5, 7) ∷ [])
unfolding find_achievement_game_ids entry_game_ids loads dumps starts_with is_digits before_colon
    drop_prefix int_of mentions_wanted likely_first_prefixes entries_by_prefix merge_cached is_space
one_game-found = refl
