-- ===== src/Flusher/Run/Kept.antt =====
-- The loop of `flush_pending_awards` in linux/raofflineproxy/flusher.py over the awards it was started
-- with: the queue it leaves, and its counters.
use raoffline_proxy.Prelude.{
  ℕ, ◌+◌, ◌≤◌, ◌≡◌, refl, sym, ◌∙◌, subst, All-both, none, some, List, [], ◌∷◌, map, Text, arith,
  find, All, length, Distinct, Bool-cases, inl, inr, ◌==◌,
}
use raoffline_proxy.Prelude.Sorted.{sort-All}
use raoffline_proxy.Storage.{Award, Store, pending, stale, flushed}
use raoffline_proxy.Storage.Awards.{award_le, get_pending_awards, update_pending_award}
use raoffline_proxy.Storage.AwardLaws.{same_achievement, IsQueue}
use raoffline_proxy.AwardSigning.{Crypto}
use raoffline_proxy.Storage.Cache.{delete_cache}
use raoffline_proxy.Auth.{clear_invalid_token}
use raoffline_proxy.Flusher.Chain.{verify_chain}
use raoffline_proxy.Flusher.Send.{Sent, success, auth_error, network_error, raised}
use raoffline_proxy.Flusher.Run.Loop.{
  Environment, Progress, Action, send, skip_deleted, skip_stale, skip_flushed, mark_hardcore,
  mark_unknown, choose, act, record_sent, mark_stale, send_all, start,
}
use raoffline_proxy.Flusher.Run.Parts.{
  ChainPart, chain_part, parts, InChain, upsert-parts, verify_chain-parts,
}

record_sent-parts :
    (answer : Sent) (a : Award) (p : Progress)
    → InChain a (parts p.store)
    → parts (record_sent answer a p).0.store ≡ parts p.store
unfolding record_sent clear_invalid_token delete_cache update_pending_award
record_sent-parts success a p h =
    upsert-parts (record a { status = flushed; last_error = none }) p.store
      (record { id = h.id; found = h.found })
record_sent-parts (auth_error m) a p h =
    upsert-parts (record a { status = pending; last_error = some m }) p.store
      (record { id = h.id; found = h.found })
record_sent-parts (network_error m) a p h =
    upsert-parts
      (record a { retry_count = a.retry_count + 1; status = pending; last_error = some m }) p.store
      (record { id = h.id; found = h.found })
record_sent-parts raised a p h = refl

pub act-parts :
    (env : Environment) (x : Action) (a : Award) (p : Progress)
    → InChain a (parts p.store)
    → parts (act env x a p).0.store ≡ parts p.store
unfolding act mark_stale
act-parts env skip_deleted a p h = refl
act-parts env skip_stale a p h = refl
act-parts env skip_flushed a p h = refl
act-parts env mark_hardcore a p h =
    upsert-parts (record a { status = stale; last_error = some _ }) p.store
      (record { id = h.id; found = h.found })
act-parts env mark_unknown a p h =
    upsert-parts (record a { status = stale; last_error = some _ }) p.store
      (record { id = h.id; found = h.found })
act-parts env send a p h = record_sent-parts (env.send a) a p h

send_all-parts :
    (env : Environment) (awards : List Award) (p : Progress)
    → All (λ a. InChain a (parts p.store)) awards
    → parts (send_all env awards p).0.store ≡ parts p.store
unfolding send_all
send_all-parts env [] p h = refl
send_all-parts env (a ∷ later) p h =
    let p' = (act env (choose env a) a p).0 in
    let same : parts p'.store ≡ parts p.store = act-parts env (choose env a) a p h.0 in
    let still : All (λ b. InChain b (parts p'.store)) later =
      subst (λ ps. All (λ b. InChain b ps) later) (sym same) h.1 in
    elim (Bool-cases (act env (choose env a) a p).1) [
      | inl on ↦ rw (on, send_all) (send_all-parts env later p' still ∙ same)
      | inr off ↦ rw (off, send_all) same
    ]

abbrev FoundIn : List Award → Award → Type 0
FoundIn awards a =
    find (λ (p : ChainPart). p.achievement_id == a.achievement_id) (map chain_part awards)
    ≡ some (chain_part a)

-- An award of a queue is found by its achievement.
Distinct-FoundIn :
    (awards : List Award) → Distinct same_achievement awards → All (FoundIn awards) awards
unfolding find
Distinct-FoundIn [] d = tt
Distinct-FoundIn (a ∷ awards) d = (
  ground arith,
  All-both _ (FoundIn awards) (FoundIn (a ∷ awards)) awards
      (λ b differ found. ground (arith, differ, found)) d.0 (Distinct-FoundIn awards d.1),
)

pub queue-InChain :
    (s : Store) → IsQueue s.pending_awards → All (λ a. InChain a (parts s)) (get_pending_awards s)
unfolding get_pending_awards
queue-InChain s q = sort-All award_le _ s.pending_awards (
    All-both _ _ _ s.pending_awards (λ a id found. record { id = id; found = found }) q.ids
      (Distinct-FoundIn s.pending_awards q.distinct))

-- The loop over the queue that it was started with leaves every award in its place, with its id, its
-- request, its time of queueing and its link of the chain; so it neither breaks nor repairs the chain.
pub send_all-chain :
    (c : Crypto) (secret : Text) (env : Environment) (s : Store)
    → IsQueue s.pending_awards
    → (parts (send_all env (get_pending_awards s) (start s)).0.store ≡ parts s)
      × (verify_chain c secret
            (get_pending_awards (send_all env (get_pending_awards s) (start s)).0.store)
          ≡ verify_chain c secret (get_pending_awards s))
send_all-chain c secret env s q =
    let same = send_all-parts env (get_pending_awards s) (start s) (queue-InChain s q) in
    (same, verify_chain-parts c secret _ s same)

abbrev pub processed_count : Progress → ℕ
processed_count p = p.flushed + p.skipped_deleted + p.skipped_stale

record_sent-count :
    (answer : Sent) (a : Award) (p : Progress)
    → processed_count (record_sent answer a p).0 ≤ processed_count p + 1
unfolding record_sent
record_sent-count success a p = omega arith
record_sent-count (auth_error m) a p = omega arith
record_sent-count (network_error m) a p = omega arith
record_sent-count raised a p = omega arith

act-count :
    (env : Environment) (x : Action) (a : Award) (p : Progress)
    → processed_count (act env x a p).0 ≤ processed_count p + 1
unfolding act mark_stale
act-count env skip_deleted a p = omega arith
act-count env skip_stale a p = omega arith
act-count env skip_flushed a p = omega arith
act-count env mark_hardcore a p = omega arith
act-count env mark_unknown a p = omega arith
act-count env send a p = record_sent-count (env.send a) a p

pub send_all-count_from :
    (env : Environment) (awards : List Award) (p : Progress)
    → processed_count (send_all env awards p).0 ≤ processed_count p + length awards
unfolding send_all
send_all-count_from env [] p = omega arith
send_all-count_from env (a ∷ later) p =
    let p' = (act env (choose env a) a p).0 in
    let one = act-count env (choose env a) a p in
    elim (Bool-cases (act env (choose env a) a p).1) [
      | inl on ↦ rw (on, send_all) (omega (arith, one, send_all-count_from env later p'))
      | inr off ↦ rw (off, send_all) (omega (arith, one))
    ]
