-- ===== src/RomCache/Unlocks.antt =====
-- The unlocks of a game, cached and pending: `merge_start_session_unlock_ids` and what it reads, and the
-- value of a session, of linux/raofflineproxy/rom_cache.py.
use raoffline_proxy.Prelude.{
  ℕ, Bool, true, false, ◌&&◌, ◌||◌, not, Option, none, some, List, [], ◌∷◌, ◌++◌, map, Text, codes,
  any, keep, ltb, ◌==◌, if◌then◌else◌, get_or,
}
use raoffline_proxy.Json.{Json, Items, bool, num, arr, obj, nil, cons, end, field, field_of, as_int}
use raoffline_proxy.FormParams.{
  after_mark, last_value, or_text, is_text, is_hardcore_request, extract_form_param,
}
use raoffline_proxy.FormParams.Parse.{parse_qsl}
use raoffline_proxy.Storage.{Award, pending}
use raoffline_proxy.Storage.Awards.{has_status, warning_achievement_id}

-- The games of achievements, as far as they are known.
abbrev pub GameIds : Type 0
GameIds = List (ℕ × ℕ)

unfoldable pub game_of : ℕ → GameIds → Option ℕ
game_of achievement [] = none
game_of achievement ((a, game) ∷ ids) =
    let rest = game_of achievement ids in if a == achievement then some game else rest

abbrev pub is_game : Option ℕ → ℕ → Bool
is_game none game = false
is_game (some g) game = g == game

abbrev pub member : ℕ → List ℕ → Bool
member n ns = any (λ m. m == n) ns

-- The user that the request names, in its query string or else in its body.
unfoldable pub pending_award_user : Award → Option Text
unfolding after_mark last_value parse_qsl or_text extract_form_param
pending_award_user a =
    or_text (last_value (codes "u") (parse_qsl (get_or (after_mark 63 a.query_string) [])))
      (extract_form_param a.request_body (codes "u"))

-- `user is None or pending_award_user(award) == user`
unfoldable pub is_of_user : Option Text → Award → Bool
is_of_user none a = true
is_of_user (some user) a = is_text (pending_award_user a) user

unfoldable pub is_pending_softcore_unlock : Option Text → Award → Bool
is_pending_softcore_unlock user a =
    has_status pending a
    && (ltb 0 a.achievement_id
        && (not (is_hardcore_request a.query_string a.request_body) && is_of_user user a))

-- A set is the list of its elements; an element may stand twice.
unfoldable pub pending_unlock_achievement_ids : Option Text → List Award → List ℕ
pending_unlock_achievement_ids user awards =
    map (λ (a : Award). a.achievement_id) (keep (is_pending_softcore_unlock user) awards)

-- The ids in `merged` are the ids that were seen.
unfoldable pub with_cached : List ℕ → ℕ → List ℕ
with_cached merged n = if (n == 0) || member n merged then merged else merged ++ n ∷ []

unfoldable pub merge_cached : List ℕ → List ℕ → List ℕ
unfolding with_cached
merge_cached merged [] = merged
merge_cached merged (n ∷ ns) = merge_cached (with_cached merged n) ns

unfoldable pub with_pending : GameIds → ℕ → Text → List ℕ → Award → List ℕ
with_pending ids game user merged a =
    if not (is_pending_softcore_unlock (some user) a)
    then merged
    else if member a.achievement_id merged
    then merged
    else if not (is_game (game_of a.achievement_id ids) game)
    then merged
    else merged ++ a.achievement_id ∷ []

unfoldable pub merge_pending : GameIds → ℕ → Text → List ℕ → List Award → List ℕ
unfolding with_pending
merge_pending ids game user merged [] = merged
merge_pending ids game user merged (a ∷ later) =
    merge_pending ids game user (with_pending ids game user merged a) later

unfoldable pub merge_start_session_unlock_ids : List ℕ → List Award → GameIds → ℕ → Text → List ℕ
unfolding merge_cached merge_pending
merge_start_session_unlock_ids cached awards ids game user =
    merge_pending ids game user (merge_cached [] cached) awards

-- The positive numbers of a list that are not the synthetic warning.
unfoldable pub unlock_ids_of_items : Items → List ℕ
unfolding as_int
unlock_ids_of_items nil = []
unlock_ids_of_items (cons v vs) =
    let rest = unlock_ids_of_items vs in
    elim (as_int v) [
      | none ↦ rest
      | some n ↦ if ltb 0 n && not (n == warning_achievement_id) then n ∷ rest else rest
    ]

-- `UserUnlocks` of the cached payload; whatever is no list has no number in it, or raises, which is
-- caught.
unfoldable pub cached_unlock_ids : Option Json → List ℕ
unfolding field_of unlock_ids_of_items
cached_unlock_ids (some (obj payload)) = elim (field_of (codes "UserUnlocks") payload) [
  | some (arr ids) ↦ unlock_ids_of_items ids
  | _ ↦ []
]
cached_unlock_ids _ = []

-- `[{"ID": achievement_id, "When": server_now} for …]`
unfoldable pub unlock_items : ℕ → List ℕ → Items
unlock_items now [] = nil
unlock_items now (n ∷ ns) =
    cons (obj (field (codes "ID") (num n) (field (codes "When") (num now) end)))
      (unlock_items now ns)

unfoldable pub session_value : ℕ → Items → Json
session_value now unlocks = obj (
    field (codes "Success") (bool true) (
      field (codes "ServerNow") (num now)
        (field (codes "HardcoreUnlocks") (arr nil) (field (codes "Unlocks") (arr unlocks) end))))
