-- ===== src/Flusher/Run.antt =====
-- `flush_pending_awards`, `refresh_and_load_achievement_ids` and `purge_processed_awards_if_safe` of
-- linux/raofflineproxy/flusher.py. Writes that are made before an exception stay.
pub mod Loop
pub mod Refresh
pub mod Purge
pub mod Parts
pub mod Kept
pub mod Outcome
pub mod Repaired
pub mod ChainCheck
use Loop.{Progress, Environment, send_all, start}
use Refresh.{refresh_and_load, Refreshed}
use raoffline_proxy.RomCache.Unlocks.{GameIds}
use raoffline_proxy.RomCache.Sessions.{cache_session}
use raoffline_proxy.RomCache.GameIds.Search.{find_achievement_game_ids}
use Purge.{purge_processed_awards_if_safe}
use raoffline_proxy.Prelude.{
  ℕ, zero, suc, ◌+◌, Bool, true, false, ◌&&◌, ◌||◌, not, Option, none, some, List, [], ◌∷◌, Text,
  any, count, keep, length, if◌then◌else◌, ltb, map,
}
use raoffline_proxy.Storage.{Award, Status, Store, pending, deleted, stale, flushed}
use raoffline_proxy.Storage.Awards.{get_pending_awards, has_status, update_pending_award}
use raoffline_proxy.Auth.{Credentials, Login, resolve_credentials}
use raoffline_proxy.Flusher.Chain.{
  Reason, link_broken, payload_mismatch, invalid_signature, Verdict, valid, invalid, verify_chain,
  repair_pending_chain,
}
use raoffline_proxy.RomCache.{cache_unlocks}
use raoffline_proxy.Json.{Codec}
use raoffline_proxy.AwardSigning.{Crypto}
use raoffline_proxy.Server.{Server}
use raoffline_proxy.Flusher.Send.{UserAgents, send_award}

-- `last_error` of an outcome.
pub data FlushError : Type 0 where
  chain_broken : ℕ → Reason → FlushError
  no_credentials : FlushError
  not_refreshed : FlushError

pub record FlushOutcome : Type 0 where
  pub flushed : ℕ
  pub total : ℕ
  pub skipped_stale : ℕ
  pub skipped_deleted : ℕ
  pub pending_remaining : ℕ
  pub last_error : Option FlushError

pub data Flush : Type 0 where
  done : FlushOutcome → Flush
  raised : Flush

abbrev aborted : ℕ → FlushError → FlushOutcome
aborted total reason = record {
  flushed = 0;
  total = total;
  skipped_stale = 0;
  skipped_deleted = 0;
  pending_remaining = total;
  last_error = some reason;
}

-- `for award in awards: storage.update_pending_award(award)`
unfoldable pub update_all : List Award → Store → Store
update_all [] s = s
update_all (a ∷ later) s = update_all later (update_pending_award a s)

-- What the chain check leaves to do: go on with the awards, or give up.
pub data Checked : Type 0 where
  proceed : List Award → Checked
  give_up : ℕ → Reason → Checked

module _ (c : Crypto) (secret : Text) where
  -- The chain is verified; a broken link is repaired if the repair passes the verification.
  unfoldable pub check_chain : (ℕ → ℕ) → List Award → Store → Store × Checked
  check_chain now awards s =
      let repair : ℕ → Store × Checked = λ index. elim (repair_pending_chain c secret now awards) [
        | none ↦ (s, give_up index link_broken)
        | some repaired ↦ elim (verify_chain c secret repaired) [
          | valid ↦ (update_all repaired s, proceed (get_pending_awards (update_all repaired s)))
          | invalid _ _ ↦ (s, give_up index link_broken)
        ]
      ] in
      elim (verify_chain c secret awards) [
        | valid ↦ (s, proceed awards)
        | invalid link_broken index ↦ repair index
        | invalid payload_mismatch index ↦ (s, give_up index payload_mismatch)
        | invalid invalid_signature index ↦ (s, give_up index invalid_signature)
      ]

abbrev pub nothing_queued : FlushOutcome
nothing_queued = record {
  flushed = 0;
  total = 0;
  skipped_stale = 0;
  skipped_deleted = 0;
  pending_remaining = 0;
  last_error = none;
}

-- `if not pending: return FlushOutcome(…)`, and else the run.
unfoldable pub unless_empty : List Award → Store → Store × Flush → Store × Flush
unless_empty [] s run = (s, done nothing_queued)
unless_empty (a ∷ later) s run = run

-- The outcome where no award is pending any more.
unfoldable pub all_processed : List Award → FlushOutcome
unfolding count
all_processed awards = record {
  flushed = 0;
  total = length awards;
  skipped_stale = count (has_status stale) awards;
  skipped_deleted = count (has_status deleted) awards;
  pending_remaining = 0;
  last_error = none;
}

-- The outcome at the end of a whole run.
unfoldable pub completed : List Award → Progress → Store → FlushOutcome
unfolding count get_pending_awards
completed awards p s = record {
  flushed = p.flushed;
  total = length awards;
  skipped_stale = p.skipped_stale;
  skipped_deleted = p.skipped_deleted;
  pending_remaining = count (has_status pending) (get_pending_awards s);
  last_error = none;
}

-- `[award for award in pending if award["status"] == "pending"]`
abbrev pub still_pending : List Award → List Award
still_pending awards = keep (has_status pending) awards

-- What a run reads from outside: RetroAchievements, the clock (at the awards of a repair, at the awards
-- that are sent, and else), and the emulators' configuration.
pub record Outside : Type 0 where
  pub server : Server
  pub clock : ℕ
  pub signed_at : ℕ → ℕ
  pub sent_at : Award → ℕ
  pub configured : Option Credentials
  pub password : Option Login

module _ (json : Codec) (c : Crypto) (secret : Text) (md5_hex : Text → Text) (agents : UserAgents)
    (o : Outside) where
  -- The unlocks and the session of each game; false: an exception.
  unfoldable pub refresh_sessions : Credentials → List ℕ → Store → Store × Bool
  unfolding cache_unlocks cache_session
  refresh_sessions creds [] s = (s, true)
  refresh_sessions creds (game ∷ later) s =
      elim (cache_unlocks json (o.server.unlocks game creds.user creds.token) o.clock game creds
        s) [
          | none ↦ (s, false)
          | some s' ↦ elim (cache_session json o.clock game creds.user s') [
            | none ↦ (s', false)
            | some s'' ↦ refresh_sessions creds later s''
          ]
        ]

  abbrev pub environment : Credentials → GameIds → List ℕ → Environment
  environment creds ids known = record {
    known = known;
    cached = map (λ (x : ℕ × ℕ). x.0) ids;
    send = λ a. send_award json c secret md5_hex agents o.server (o.sent_at a) creds.token a;
  }

  -- The purge and the outcome.
  unfoldable pub conclude : List Award → Progress → Store × Bool → Store × Flush
  unfolding purge_processed_awards_if_safe completed
  conclude awards p (s, false) = (s, raised)
  conclude awards p (s, true) = (
    purge_processed_awards_if_safe s,
    done (completed awards p (purge_processed_awards_if_safe s)),
  )

  -- After the loop: the sessions, if an award was flushed.
  unfoldable pub finish : Credentials → List ℕ → List Award → Progress × Bool → Store × Flush
  unfolding refresh_sessions conclude
  finish creds games awards (p, false) = (p.store, raised)
  finish creds games awards (p, true) =
      let refreshed = refresh_sessions creds games p.store in
      conclude awards p (if ltb 0 p.flushed then refreshed else (p.store, true))

  unfoldable pub flush_refreshed :
      Credentials → GameIds → List Award → Store × Refreshed → Store × Flush
  unfolding send_all finish
  flush_refreshed creds ids awards (s, Refreshed.not_refreshed) =
      (s, done (aborted (length awards) FlushError.not_refreshed))
  flush_refreshed creds ids awards (s, Refreshed.raised) = (s, raised)
  flush_refreshed creds ids awards (s, Refreshed.loaded known games) =
      finish creds games awards (send_all (environment creds ids known) awards (start s))

  unfoldable pub flush_with : List Award → Store × Option Credentials → Store × Flush
  unfolding find_achievement_game_ids refresh_and_load flush_refreshed
  flush_with awards (s, none) = (s, done (aborted (length awards) no_credentials))
  flush_with awards (s, some creds) =
      elim (find_achievement_game_ids json none
        (map (λ (a : Award). a.achievement_id) (still_pending awards)) s) [
          | none ↦ (s, raised)
          | some ids ↦
              flush_refreshed creds ids awards
                (refresh_and_load json o.server o.clock creds ids (still_pending awards) s)
        ]

  -- After the chain check.
  unfoldable pub flush_checked : List Award → Store → Store × Flush
  unfolding resolve_credentials flush_with all_processed purge_processed_awards_if_safe
  flush_checked awards s =
      let found = resolve_credentials json o.server o.clock o.configured o.password s in
      let run = flush_with awards found in
      if any (has_status pending) awards
      then run
      else (purge_processed_awards_if_safe s, done (all_processed awards))

  -- The chain check's verdict: the awards that go on, or the abort.
  unfoldable pub flush_verdict : List Award → Store × Checked → Store × Flush
  unfolding flush_checked
  flush_verdict awards (s, give_up index reason) =
      (s, done (aborted (length awards) (chain_broken index reason)))
  flush_verdict awards (s, proceed found) = flush_checked found s

  unfoldable pub flush_pending_awards : Store → Store × Flush
  unfolding check_chain flush_verdict get_pending_awards unless_empty
  flush_pending_awards s =
      let awards = get_pending_awards s in
      unless_empty awards s (flush_verdict awards (check_chain c secret o.signed_at awards s))
