-- ===== src/Flusher/Run/Outcome.antt =====
-- The outcomes of `flush_pending_awards` of linux/raofflineproxy/flusher.py.
use raoffline_proxy.Prelude.{
  ℕ, ◌+◌, ◌≤◌, ◌≡◌, refl, Bool, true, false, Option, none, some, List, [], ◌∷◌, Text, arith, length,
  count, any, Bool-cases, Option-cases, map, inl, inr,
}
use raoffline_proxy.Json.{Codec}
use raoffline_proxy.Storage.{
  Award, Status, Store, pending, deleted, stale, flushed, other, status_eq,
}
use raoffline_proxy.Storage.Awards.{has_status, get_pending_awards}
use raoffline_proxy.AwardSigning.{Crypto}
use raoffline_proxy.Auth.{Credentials}
use raoffline_proxy.Flusher.Send.{UserAgents}
use raoffline_proxy.Flusher.Run.{
  Flush, done, raised, all_processed, completed, Outside, Checked, proceed, give_up, check_chain,
  finish, conclude, flush_refreshed, flush_with, flush_checked, flush_verdict, flush_pending_awards,
  environment, unless_empty, still_pending,
}
use raoffline_proxy.Flusher.Run.Loop.{Progress, send_all, start}
use raoffline_proxy.RomCache.Unlocks.{GameIds}
use raoffline_proxy.RomCache.GameIds.Search.{find_achievement_game_ids}
use raoffline_proxy.Flusher.Run.Refresh.{Refreshed}
use raoffline_proxy.Flusher.Run.Kept.{processed_count, send_all-count_from}

-- No more awards are counted than there are.
abbrev pub IsBounded : Flush → Type 0
IsBounded (done out) = out.flushed + out.skipped_stale + out.skipped_deleted ≤ out.total
IsBounded raised = Unit

exclusive : (x : Status) → status_eq x stale ≡ true → status_eq x deleted ≡ false
unfolding status_eq
exclusive pending h = refl
exclusive deleted h = absurd cc
exclusive stale h = refl
exclusive flushed h = refl
exclusive (other s) h = refl

stale_or_deleted :
    (awards : List Award)
    → count (has_status stale) awards + count (has_status deleted) awards ≤ length awards
unfolding count
stale_or_deleted [] = omega arith
stale_or_deleted (a ∷ awards) = ground (arith, exclusive a.status, stale_or_deleted awards)

module _ (json : Codec) (c : Crypto) (secret : Text) (md5_hex : Text → Text) (agents : UserAgents)
    (o : Outside) where
  conclude-IsBounded :
      (awards : List Award) (p : Progress) (ended : Store × Bool)
      → processed_count p ≤ length awards
      → IsBounded (conclude json c secret md5_hex agents o awards p ended).1
  unfolding conclude completed
  conclude-IsBounded awards p (s, false) h = tt
  conclude-IsBounded awards p (s, true) h = omega arith

  finish-IsBounded :
      (creds : Credentials) (games : List ℕ) (awards : List Award) (run : Progress × Bool)
      → processed_count run.0 ≤ length awards
      → IsBounded (finish json c secret md5_hex agents o creds games awards run).1
  unfolding finish
  finish-IsBounded creds games awards (p, false) h = tt
  finish-IsBounded creds games awards (p, true) h = conclude-IsBounded awards p _ h

  refreshed-IsBounded :
      (creds : Credentials) (ids : GameIds) (awards : List Award) (answer : Store × Refreshed)
      → IsBounded (flush_refreshed json c secret md5_hex agents o creds ids awards answer).1
  unfolding flush_refreshed
  refreshed-IsBounded creds ids awards (s, Refreshed.not_refreshed) = omega arith
  refreshed-IsBounded creds ids awards (s, Refreshed.raised) = tt
  refreshed-IsBounded creds ids awards (s, Refreshed.loaded known games) =
      let run =
        send_all (environment json c secret md5_hex agents o creds ids known) awards (start s) in
      finish-IsBounded creds games awards run (
        omega (
          arith,
          send_all-count_from (environment json c secret md5_hex agents o creds ids known) awards
              (start s),
        ))

  with-IsBounded :
      (awards : List Award) (found : Store × Option Credentials)
      → IsBounded (flush_with json c secret md5_hex agents o awards found).1
  unfolding flush_with
  with-IsBounded awards (s, none) = omega arith
  with-IsBounded awards (s, some creds) =
      elim (Option-cases (
        find_achievement_game_ids json none
          (map (λ (a : Award). a.achievement_id) (still_pending awards)) s)) [
            | inl broken ↦ rw (broken, flush_with) tt
            | inr (ids, found_ids) ↦
                rw (found_ids, flush_with) (refreshed-IsBounded creds ids awards _)
          ]

  checked-IsBounded :
      (awards : List Award) (s : Store)
      → IsBounded (flush_checked json c secret md5_hex agents o awards s).1
  unfolding flush_checked all_processed
  checked-IsBounded awards s = elim (Bool-cases (any (has_status pending) awards)) [
    | inl waiting ↦ rw waiting (with-IsBounded awards _)
    | inr clear ↦ rw clear (omega (arith, stale_or_deleted awards))
  ]

  verdict-IsBounded :
      (awards : List Award) (checked : Store × Checked)
      → IsBounded (flush_verdict json c secret md5_hex agents o awards checked).1
  unfolding flush_verdict
  verdict-IsBounded awards (s, give_up index reason) = omega arith
  verdict-IsBounded awards (s, proceed found) = checked-IsBounded found s

  unless-IsBounded :
      (awards : List Award) (s : Store) (run : Store × Flush)
      → IsBounded run.1
      → IsBounded (unless_empty awards s run).1
  unfolding unless_empty
  unless-IsBounded [] s run h = omega arith
  unless-IsBounded (a ∷ later) s run h = h

  -- Whatever way a run ends, it does not count more awards as flushed, stale or deleted than it
  -- says there were.
  pub flush-IsBounded :
      (s : Store) → IsBounded (flush_pending_awards json c secret md5_hex agents o s).1
  unfolding flush_pending_awards
  flush-IsBounded s =
      let awards = get_pending_awards s in
      let checked = check_chain c secret o.signed_at awards s in
      unless-IsBounded awards s (flush_verdict json c secret md5_hex agents o awards checked)
        (verdict-IsBounded awards checked)
