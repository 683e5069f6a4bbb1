-- ===== src/Storage/Awards.antt =====
-- The pending awards of the JSON store: linux/raofflineproxy/storage.py, from
-- `get_pending_awards` to `delete_pending_awards_by_statuses`.
use raoffline_proxy.Prelude.{
  ℕ, Bool, ◌&&◌, ◌||◌, not, Option, some, List, [], ◌∷◌, map, ltb, leb, ◌==◌, if◌then◌else◌, get_or,
  keep, any, last,
}
use raoffline_proxy.Prelude.Sorted.{sort}
use raoffline_proxy.Storage.{Award, Status, status_eq, Store, next_json_id}

abbrev pub warning_achievement_id : ℕ
warning_achievement_id = 101000001

abbrev pub award_id : Award → ℕ
award_id a = get_or a.id 0

-- `(queuedAt, id)` in the order of tuples.
unfoldable pub award_le : Award → Award → Bool
award_le a b =
    ltb a.queued_at b.queued_at || ((a.queued_at == b.queued_at) && leb (award_id a) (award_id b))

unfoldable pub get_pending_awards : Store → List Award
unfolding sort award_le
get_pending_awards s = sort award_le s.pending_awards

unfoldable pub get_latest_pending_award : Store → Option Award
unfolding get_pending_awards last
get_latest_pending_award s = last (get_pending_awards s)

abbrev pub is_for : ℕ → Award → Bool
is_for achievement a = a.achievement_id == achievement

unfoldable pub pending_award_exists : Store → ℕ → Bool
unfolding any
pending_award_exists s achievement = any (is_for achievement) s.pending_awards

-- The award of the same achievement takes over the fields and keeps its id; without one the award is
-- appended.
unfoldable pub put_award : ℕ → Award → List Award → List Award
put_award id a [] = record a { id = some (get_or a.id id) } ∷ []
put_award id a (b ∷ bs) =
    let rest = put_award id a bs in
    if is_for a.achievement_id b
    then record a { id = some (get_or b.id (get_or a.id id)) } ∷ bs
    else b ∷ rest

-- `_upsert_pending_award_json`
unfoldable pub upsert_pending_award_json : Award → Store → Store
unfolding put_award
upsert_pending_award_json a s = record s {
  pending_awards = put_award (next_json_id (map award_id s.pending_awards)) a s.pending_awards;
}

unfoldable pub upsert_pending_award : Award → Store → Store
unfolding upsert_pending_award_json
upsert_pending_award a s =
    if a.achievement_id == warning_achievement_id then s else upsert_pending_award_json a s

-- `update_pending_award`
unfoldable pub update_pending_award : Award → Store → Store
unfolding upsert_pending_award
update_pending_award a s = upsert_pending_award a s

unfoldable pub delete_pending_award : ℕ → Store → Store
unfolding keep
delete_pending_award achievement s = record s {
  pending_awards = keep (λ a. not (is_for achievement a)) s.pending_awards;
}

abbrev pub has_status : Status → Award → Bool
has_status status a = status_eq a.status status

unfoldable pub pending_awards_exist_by_status : Store → Status → Bool
unfolding any status_eq
pending_awards_exist_by_status s status = any (has_status status) s.pending_awards

abbrev pub status_among : List Status → Award → Bool
status_among statuses a = any (status_eq a.status) statuses

unfoldable pub delete_pending_awards_by_statuses : List Status → Store → Store
unfolding keep any status_eq
delete_pending_awards_by_statuses statuses s = record s {
  pending_awards = keep (λ a. not (status_among statuses a)) s.pending_awards;
}
