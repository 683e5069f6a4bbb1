-- ===== src/Queue/Reachable.antt =====
-- The stores that the proxy comes to, step by step, from an empty one: the awards that it queues
-- (proxy_service.py), the awards that the user deletes (pending_awards.py), the runs of the flush
-- (flusher.py), and whatever else is written to the cache, under linux/raofflineproxy. Each step is
-- taken as a whole; Queue.Interleaved has the changes in the middle of a running flush.
use raoffline_proxy.Prelude.{ℕ, ◌≡◌, Bool, Text, refl}
use raoffline_proxy.Json.{Codec}
use raoffline_proxy.Storage.{Store, empty_store}
use raoffline_proxy.Storage.Awards.{get_pending_awards}
use raoffline_proxy.AwardSigning.{Crypto}
use raoffline_proxy.Flusher.Send.{UserAgents}
use raoffline_proxy.Flusher.Run.{Outside, proceed, check_chain, flush_pending_awards}
use raoffline_proxy.Queue.Sound.{IsSound, empty-IsSound}
use raoffline_proxy.Queue.Grows.{Change, Change-IsSound}
use raoffline_proxy.Queue.Flushed.{flush-IsSound}

module _ (json : Codec) (c : Crypto) (secret : Text) (md5_hex : Text → Text) (agents : UserAgents)
    (already_unlocked : Store → Text → Text → Bool) where
  pub data Step : Store → Store → Type 0 where
    other : {s t : Store} → Change c secret already_unlocked s t → Step s t
    flush :
        {s : Store} (o : Outside) → Step s (flush_pending_awards json c secret md5_hex agents o s).0

  pub data Reachable : Store → Type 0 where
    start : Reachable empty_store
    next : {s t : Store} → Reachable s → Step s t → Reachable t

  Step-IsSound : (s t : Store) → Step s t → IsSound c secret s → IsSound c secret t
  Step-IsSound s t (Step.other change) h = Change-IsSound c secret already_unlocked s t change h
  Step-IsSound s t (Step.flush o) h = flush-IsSound json c secret md5_hex agents o s h

  -- In every store that the proxy comes to, no two awards are for the same achievement, each has an id
  -- and a known status, and the chain over all of them is valid.
  pub reachable-IsSound : (s : Store) → Reachable s → IsSound c secret s
  reachable-IsSound s start = empty-IsSound c secret
  reachable-IsSound s (next before step) = Step-IsSound _ s step (reachable-IsSound _ before)

  -- So a run of the flush accepts the chain as it is: it neither repairs nor gives up.
  pub reachable-check_chain :
      (now : ℕ → ℕ) (s : Store)
      → Reachable s
      → check_chain c secret now (get_pending_awards s) s ≡ (s, proceed (get_pending_awards s))
  unfolding check_chain
  reachable-check_chain now s r = rw ((reachable-IsSound s r).chain, check_chain) refl
