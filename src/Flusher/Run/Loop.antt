-- ===== src/Flusher/Run/Loop.antt =====
-- The loop of `flush_pending_awards` of linux/raofflineproxy/flusher.py over the queued awards.
use raoffline_proxy.Prelude.{
  ℕ, ◌+◌, Bool, true, false, ◌&&◌, not, none, some, List, [], ◌∷◌, ◌++◌, Text, codes, any, ◌==◌,
  if◌then◌else◌,
}
use raoffline_proxy.CacheKeys.Decimal.{decimal}
use raoffline_proxy.Storage.{Award, Status, Store, pending, deleted, stale, flushed, other}
use raoffline_proxy.Storage.Awards.{update_pending_award}
use raoffline_proxy.Auth.{clear_invalid_token}
use raoffline_proxy.Flusher.Award.{is_hardcore_award}
use raoffline_proxy.Flusher.Send.{Sent, success, auth_error, network_error, raised}

-- What the loop reads: the ids in the live data of the awards' games, the ids that the cache knows a
-- game for, and what sending an award gives.
pub record Environment : Type 0 where
  pub known : List ℕ
  pub cached : List ℕ
  pub send : Award → Sent

-- The store and the counters.
pub record Progress : Type 0 where
  pub store : Store
  pub flushed : ℕ
  pub skipped_deleted : ℕ
  pub skipped_stale : ℕ

abbrev pub start : Store → Progress
start s = record { store = s; flushed = 0; skipped_deleted = 0; skipped_stale = 0 }

abbrev pub member : ℕ → List ℕ → Bool
member n ns = any (λ m. m == n) ns

unfoldable pub not_empty : List ℕ → Bool
not_empty [] = false
not_empty (n ∷ ns) = true

-- What the loop does with an award.
pub data Action : Type 0 where
  skip_deleted skip_stale skip_flushed : Action
  mark_hardcore mark_unknown : Action
  send : Action

unfoldable pub choose_open : Environment → Award → Action
unfolding not_empty
choose_open env a =
    if is_hardcore_award a
    then mark_hardcore
    else if not_empty env.known
        && (member a.achievement_id env.cached && not (member a.achievement_id env.known))
    then mark_unknown
    else send

-- The guards in the order of the code.
unfoldable pub choose_by : Status → Environment → Award → Action
unfolding choose_open
choose_by deleted env a = skip_deleted
choose_by stale env a = skip_stale
choose_by flushed env a = skip_flushed
choose_by pending env a = choose_open env a
choose_by (other s) env a = choose_open env a

abbrev pub choose : Environment → Award → Action
choose env a = choose_by a.status env a

abbrev pub hardcore_message : Text
hardcore_message = codes "Hardcore award cannot be flushed because hardcore mode is not supported"

abbrev pub unknown_message : ℕ → Text
unknown_message achievement =
    codes "Achievement " ++ (decimal achievement ++ codes " not found in live server data")

unfoldable pub mark_stale : Text → Award → Progress → Progress
mark_stale message a p = record p {
  store = update_pending_award (record a { status = stale; last_error = some message }) p.store;
  skipped_stale = p.skipped_stale + 1;
}

-- The award after an answer, and whether the loop goes on.
unfoldable pub record_sent : Sent → Award → Progress → Progress × Bool
record_sent success a p = (
  record p {
    store =
        clear_invalid_token
          (update_pending_award (record a { status = flushed; last_error = none }) p.store);
    flushed = p.flushed + 1;
  },
  true,
)
record_sent (auth_error message) a p = (
  record p {
    store = update_pending_award (record a { status = pending; last_error = some message }) p.store;
  },
  true,
)
record_sent (network_error message) a p = (
  record p {
    store =
        update_pending_award
          (record a {
            retry_count = a.retry_count + 1;
            status = pending;
            last_error = some message;
          })
          p.store;
  },
  true,
)
record_sent raised a p = (p, false)

unfoldable pub act : Environment → Action → Award → Progress → Progress × Bool
unfolding mark_stale record_sent
act env skip_deleted a p = (record p { skipped_deleted = p.skipped_deleted + 1 }, true)
act env skip_stale a p = (record p { skipped_stale = p.skipped_stale + 1 }, true)
act env skip_flushed a p = (p, true)
act env mark_hardcore a p = (mark_stale hardcore_message a p, true)
act env mark_unknown a p = (mark_stale (unknown_message a.achievement_id) a p, true)
act env send a p = record_sent (env.send a) a p

-- False: an exception left the loop.
unfoldable pub send_all : Environment → List Award → Progress → Progress × Bool
send_all env [] p = (p, true)
send_all env (a ∷ later) p =
    let (p', on) = act env (choose env a) a p in
    elim on [ true ↦ send_all env later p' | false ↦ (p', false) ]
