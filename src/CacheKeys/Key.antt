-- ===== src/CacheKeys/Key.antt =====
-- The key builders of linux/raofflineproxy/cache_keys.py, under the names of that module.
use raoffline_proxy.Prelude.{ℕ, ◌∷◌, ◌++◌, Text, codes}
use raoffline_proxy.CacheKeys.{Prefix, prefix_text, normalize}
use raoffline_proxy.CacheKeys.Decimal.{decimal}

unfoldable pub login : Text → Text
unfolding prefix_text normalize decimal
login user = prefix_text Prefix.login ++ normalize user

unfoldable pub game_id : Text → Text
unfolding prefix_text normalize decimal
game_id hash = prefix_text Prefix.gameid ++ normalize hash

unfoldable pub patch : ℕ → Text → Text
unfolding prefix_text normalize decimal
patch game user = prefix_text Prefix.patch ++ (decimal game ++ 58 ∷ normalize user)

unfoldable pub unlocks : ℕ → Text → Text
unfolding prefix_text normalize decimal
unlocks game user =
    prefix_text Prefix.unlocks ++ (decimal game ++ 58 ∷ (normalize user ++ codes ":0"))

unfoldable pub start_session : ℕ → Text → Text
unfolding prefix_text normalize decimal
start_session game user =
    prefix_text Prefix.startsession ++ (decimal game ++ 58 ∷ (normalize user ++ codes ":0"))

unfoldable pub last_played : ℕ → Text
unfolding prefix_text normalize decimal
last_played game = prefix_text Prefix.last_played ++ decimal game

unfoldable pub cache_queue : Text → Text
unfolding prefix_text normalize decimal
cache_queue hash = prefix_text Prefix.cache_queue ++ normalize hash

unfoldable pub watch_seen : Text → Text
unfolding prefix_text normalize decimal
watch_seen path = prefix_text Prefix.watch_seen ++ path

unfoldable pub achievementsets : Text → Text → Text
unfolding prefix_text normalize decimal
achievementsets scope user =
    prefix_text Prefix.achievementsets ++ (normalize scope ++ 58 ∷ normalize user)
