-- ===== src/Queue/Loop.antt =====
-- The loop of `flush_pending_awards` of linux/raofflineproxy/flusher.py keeps a queue sound.
use raoffline_proxy.Prelude.{◌+◌, refl, none, some, List, [], ◌∷◌, Text, All, Bool-cases, inl, inr}
use raoffline_proxy.Storage.{Award, Store, pending, stale, flushed}
use raoffline_proxy.Storage.Awards.{get_pending_awards}
use raoffline_proxy.Storage.Cache.{delete_cache}
use raoffline_proxy.AwardSigning.{Crypto}
use raoffline_proxy.Auth.{clear_invalid_token}
use raoffline_proxy.Flusher.Send.{Sent, success, auth_error, network_error, raised}
use raoffline_proxy.Flusher.Run.Loop.{
  Environment, Progress, Action, send, skip_deleted, skip_stale, skip_flushed, mark_hardcore,
  mark_unknown, choose, act, record_sent, mark_stale, send_all, start,
}
use raoffline_proxy.Flusher.Run.Purge.{is_known}
use raoffline_proxy.Flusher.Run.Kept.{send_all-chain}
use raoffline_proxy.Queue.Sound.{HasKnownStatus, IsSound, IsSound-parts, update-known}

abbrev pub AreKnown : Store → Type 0
AreKnown s = All HasKnownStatus s.pending_awards

record_sent-known :
    (answer : Sent) (a : Award) (p : Progress)
    → AreKnown p.store
    → AreKnown (record_sent answer a p).0.store
unfolding record_sent clear_invalid_token delete_cache is_known
record_sent-known success a p h =
    update-known (record a { status = flushed; last_error = none }) p.store refl h
record_sent-known (auth_error m) a p h =
    update-known (record a { status = pending; last_error = some m }) p.store refl h
record_sent-known (network_error m) a p h =
    update-known
      (record a { retry_count = a.retry_count + 1; status = pending; last_error = some m }) p.store
      refl h
record_sent-known raised a p h = h

pub act-known :
    (env : Environment) (x : Action) (a : Award) (p : Progress)
    → AreKnown p.store
    → AreKnown (act env x a p).0.store
unfolding act mark_stale is_known
act-known env skip_deleted a p h = h
act-known env skip_stale a p h = h
act-known env skip_flushed a p h = h
act-known env mark_hardcore a p h =
    update-known (record a { status = stale; last_error = some _ }) p.store refl h
act-known env mark_unknown a p h =
    update-known (record a { status = stale; last_error = some _ }) p.store refl h
act-known env send a p h = record_sent-known (env.send a) a p h

send_all-known :
    (env : Environment) (awards : List Award) (p : Progress)
    → AreKnown p.store
    → AreKnown (send_all env awards p).0.store
unfolding send_all
send_all-known env [] p h = h
send_all-known env (a ∷ later) p h =
    let p' = (act env (choose env a) a p).0 in
    let k = act-known env (choose env a) a p h in
    elim (Bool-cases (act env (choose env a) a p).1) [
      | inl on ↦ rw (on, send_all) (send_all-known env later p' k)
      | inr off ↦ rw (off, send_all) k
    ]

pub send_all-IsSound :
    (c : Crypto) (secret : Text) (env : Environment) (s : Store)
    → IsSound c secret s
    → IsSound c secret (send_all env (get_pending_awards s) (start s)).0.store
send_all-IsSound c secret env s h =
    IsSound-parts c secret s (send_all env (get_pending_awards s) (start s)).0.store
      (send_all-chain c secret env s h.queue).0
      (send_all-known env (get_pending_awards s) (start s) h.known) h
