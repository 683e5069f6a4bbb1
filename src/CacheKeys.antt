-- ===== src/CacheKeys.antt =====
-- linux/raofflineproxy/cache_keys.py: the keys under which responses are stored. Of a text,
-- `lower`, `strip` and `isdigit` are those of ASCII.
pub mod Decimal
pub mod Key
pub mod RoundTrip
use Decimal.{decimal, is_digits, int_of}
use raoffline_proxy.Prelude.{
  ℕ, ◌+◌, Bool, true, false, ◌&&◌, ◌||◌, Option, none, some, List, [], ◌∷◌, ◌++◌, map, Text, codes,
  ltb, leb, ◌==◌, if◌then◌else◌, starts_with, drop_prefix,
}
use mathlib.Core.List.{reverse}

abbrev pub user_agent_key : Text
user_agent_key = codes "ua::last"

abbrev pub auth_invalid_token : Text
auth_invalid_token = codes "auth::invalid_token"

abbrev pub cache_budget_key : Text
cache_budget_key = codes "cachebudget"

-- The prefixes `PREFIX_…`.
pub data Prefix : Type 0 where
  login patch unlocks startsession gameid achievementsets last_played cache_queue watch_seen :
      Prefix

unfoldable pub prefix_text : Prefix → Text
prefix_text login = codes "login2::"
prefix_text patch = codes "patch:"
prefix_text unlocks = codes "unlocks:"
prefix_text startsession = codes "startsession:"
prefix_text gameid = codes "gameid:"
prefix_text achievementsets = codes "achievementsets:"
prefix_text last_played = codes "lastplayed:"
prefix_text cache_queue = codes "cachequeue:"
prefix_text watch_seen = codes "watchseen:"

abbrev pub has_prefix : Text → Prefix → Bool
has_prefix key p = starts_with key (prefix_text p)

-- `c.isspace()` on ASCII: \t to \r, \x1c to \x1f, and the blank.
unfoldable pub is_space : ℕ → Bool
is_space c = (leb 9 c && leb c 13) || (leb 28 c && leb c 32)

unfoldable pub lower_code : ℕ → ℕ
lower_code c = if leb 65 c && leb c 90 then c + 32 else c

unfoldable pub lower : Text → Text
unfolding lower_code
lower = map lower_code

unfoldable pub strip_left : Text → Text
strip_left [] = []
strip_left (c ∷ s) = let rest = strip_left s in if is_space c then rest else c ∷ s

unfoldable pub strip : Text → Text
unfolding strip_left is_space
strip s = reverse (strip_left (reverse (strip_left s)))

-- `normalize_user` and `normalize_hash` are the same function.
unfoldable pub normalize : Text → Text
unfolding strip lower
normalize s = lower (strip s)

-- The part before the first colon: `s.split(":", 1)[0]`.
unfoldable pub before_colon : Text → Text
before_colon [] = []
before_colon (c ∷ s) = let rest = before_colon s in if c == 58 then [] else c ∷ rest

unfoldable pub parse_game_id_from_patch_key : Text → Option ℕ
unfolding prefix_text
parse_game_id_from_patch_key key =
    if has_prefix key Prefix.patch
    then (let value = before_colon (drop_prefix key (prefix_text Prefix.patch)) in
        if is_digits value then some (int_of value) else none)
    else none

unfoldable pub parse_game_id_from_last_played_key : Text → Option ℕ
unfolding prefix_text
parse_game_id_from_last_played_key key =
    if has_prefix key Prefix.last_played
    then (let value = drop_prefix key (prefix_text Prefix.last_played) in
        if is_digits value then some (int_of value) else none)
    else none
