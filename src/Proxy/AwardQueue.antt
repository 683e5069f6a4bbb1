-- ===== src/Proxy/AwardQueue.antt =====
-- An award request while RetroAchievements cannot be reached: `handle_award_request`,
-- `queue_offline_award` and `queue_award` of linux/raofflineproxy/proxy_service.py. The
-- test of the cached unlocks, `is_already_unlocked_award`, is an argument of the functions that use it.
pub mod ChainKept
pub mod Answered
use raoffline_proxy.Prelude.{
  ℕ, zero, suc, Bool, true, false, ◌&&◌, not, Option, none, some, List, [], ◌∷◌, ◌++◌, Text, codes,
  is_empty, ltb, if◌then◌else◌, get_or,
}
use raoffline_proxy.CacheKeys.Decimal.{decimal, is_digits, int_of}
use raoffline_proxy.FormParams.{extract_request_param, is_hardcore_request}
use raoffline_proxy.Storage.{Award, Status, Store}
use raoffline_proxy.Storage.Awards.{
  get_latest_pending_award, pending_award_exists, upsert_pending_award,
}
use raoffline_proxy.CacheKeys.Key
use raoffline_proxy.Json.{Codec}
use raoffline_proxy.RomCache.Unlocks.{game_of, member, cached_unlock_ids}
use raoffline_proxy.RomCache.Sessions.{cached_payload}
use raoffline_proxy.RomCache.GameIds.Search.{find_achievement_game_ids}
use raoffline_proxy.AwardSigning.{Crypto, sign_award}
use raoffline_proxy.Flusher.Chain.{link_of, sign_input}

-- `int(text or "0")` of a text of digits; any other text is taken to raise.
unfoldable pub int_or_zero : Option Text → Option ℕ
int_or_zero none = some 0
int_or_zero (some s) = if is_empty s then some 0 else if is_digits s then some (int_of s) else none

unfoldable pub achievement_of : Text → Text → Option ℕ
unfolding int_or_zero
achievement_of path body = int_or_zero (extract_request_param path body (codes "a"))

-- The readings of the clock at `queuedAt` and at `signedAt`.
pub record Clock : Type 0 where
  pub queued : ℕ
  pub signed : ℕ

module _ (c : Crypto) (secret : Text) where
  -- The award that is stored, behind the latest one.
  unfoldable pub new_award : Store → Clock → ℕ → Text → Text → Text → Award
  new_award s clock achievement path body user_agent =
      let prev = link_of (get_latest_pending_award s) in
      let payload =
        c.sha256_hex (
          decimal achievement
          ++ (124 ∷ (path ++ (124 ∷ (body ++ (124 ∷ decimal clock.queued)))))) in
      record {
        id = none;
        achievement_id = achievement;
        query_string = path;
        request_body = body;
        user_agent = user_agent;
        queued_at = clock.queued;
        retry_count = 0;
        last_error = none;
        status = Status.pending;
        payload_hash = payload;
        prev_hash = prev;
        signature = sign_award c secret (sign_input payload prev);
        signed_at = clock.signed;
      }

-- The cached unlocks of the achievement's game and the request's user list the achievement. A cached
-- payload is a dict.
module _ (json : Codec) where
  -- `none` if the search for the game raises.
  unfoldable pub lists_unlock : Store → ℕ → Text → Option Bool
  unfolding cached_payload cached_unlock_ids game_of find_achievement_game_ids
  lists_unlock s achievement user =
      elim (find_achievement_game_ids json none (achievement ∷ []) s) [
        | none ↦ none
        | some ids ↦ elim (game_of achievement ids) [
          | none ↦ some false
          | some game ↦ some (
              member achievement
                (cached_unlock_ids (cached_payload json s (Key.unlocks game user))))
        ]
      ]

  unfoldable pub is_already_unlocked_award : Store → Text → Text → Option Bool
  unfolding achievement_of extract_request_param lists_unlock
  is_already_unlocked_award s path body = elim (achievement_of path body) [
    | none ↦ none
    | some achievement ↦ elim (extract_request_param path body (codes "u")) [
      | none ↦ some false
      | some user ↦
          if ltb 0 achievement && not (is_empty user)
          then lists_unlock s achievement user
          else some false
    ]
  ]

module _ (c : Crypto) (secret : Text) (already_unlocked : Store → Text → Text → Bool) where
  -- The part under the lock: an award that is queued or unlocked already is not queued again.
  unfoldable pub queue_checked : Clock → ℕ → Text → Text → Text → Store → Store
  queue_checked clock achievement path body user_agent s =
      if ltb 0 achievement && pending_award_exists s achievement
      then s
      else if ltb 0 achievement && already_unlocked s path body
      then s
      else upsert_pending_award (new_award c secret s clock achievement path body user_agent) s

  -- `none` if the achievement id is no number, which raises.
  unfoldable pub queue_award : Clock → Text → Text → Text → Store → Option Store
  queue_award clock path body user_agent s = elim (achievement_of path body) [
    | none ↦ none
    | some achievement ↦ some (queue_checked clock achievement path body user_agent s)
  ]

-- `forward_to_upstream_result`: its kinds, with the status and the body.
pub data Upstream : Type 0 where
  success http_error : ℕ → Text → Upstream
  network_error : Upstream

pub data Reply : Type 0 where
  -- error 403 "hardcore_not_supported"
  hardcore_refused : Reply
  -- the answer of RetroAchievements, and whether the caches are refreshed afterwards
  forwarded : ℕ → Text → Bool → Reply
  -- the answer "queued_offline" with the achievement
  queued_offline : ℕ → Reply

module _ (c : Crypto) (secret : Text) (already_unlocked : Store → Text → Text → Bool) where
  unfoldable pub queue_offline_award : Clock → Text → Text → Text → Store → Option (Store × Reply)
  queue_offline_award clock path body user_agent s =
      elim (queue_award c secret already_unlocked clock path body user_agent s) [
        | none ↦ none
        | some s' ↦ elim (achievement_of path body) [
          | none ↦ none
          | some achievement ↦ some (s', queued_offline achievement)
        ]
      ]

  -- `upstream` is what a forwarded request meets; it is read only while online.
  unfoldable pub handle_award_request :
      Bool → Upstream → Clock → Text → Text → Text → Store → Option (Store × Reply)
  handle_award_request online upstream clock path body user_agent s =
      let offline = queue_offline_award clock path body user_agent s in
      if is_hardcore_request path body
      then some (s, hardcore_refused)
      else if online
      then elim upstream [
        | success status answer ↦ some (s, forwarded status answer true)
        | http_error status answer ↦ some (s, forwarded status answer false)
        | network_error ↦ offline
      ]
      else offline
