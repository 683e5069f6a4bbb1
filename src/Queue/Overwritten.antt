-- ===== src/Queue/Overwritten.antt =====
-- What a step of the loop of `flush_pending_awards` in linux/raofflineproxy/flusher.py stores: the award
-- as it was read at the start of the run, with the new status.
use raoffline_proxy.Prelude.{
  ℕ, ◌+◌, ◌≡◌, ◌≢◌, refl, none, some, List, [], ◌∷◌, map, arith, find, Bool-cases, inl, inr, ◌==◌,
  get_or, false,
}
use raoffline_proxy.Storage.{Award, Store, pending, flushed, next_json_id}
use raoffline_proxy.Storage.Cache.{delete_cache}
use raoffline_proxy.Storage.Awards.{
  award_id, is_for, put_award, upsert_pending_award, update_pending_award, warning_achievement_id,
}
use raoffline_proxy.Auth.{clear_invalid_token}
use raoffline_proxy.Flusher.Send.{Sent, success, auth_error, network_error, raised}
use raoffline_proxy.Flusher.Run.Loop.{Progress, record_sent}
use raoffline_proxy.Flusher.Run.Parts.{ChainPart, chain_part, parts, InChain, stored_again}

put_award-find :
    (id n : ℕ) (a : Award) (awards : List Award)
    → a.id ≡ some n
    → find (λ (p : ChainPart). p.achievement_id == a.achievement_id) (map chain_part awards)
      ≡ some (chain_part a)
    → find (is_for a.achievement_id) (put_award id a awards) ≡ some a
unfolding put_award find
put_award-find id n a [] i h = absurd cc
put_award-find id n a (b ∷ awards) i h = elim (Bool-cases (is_for a.achievement_id b)) [
  | inl same ↦
      let e : chain_part b ≡ chain_part a = ground (arith, h) in
      let kept : record a { id = some (get_or b.id (get_or a.id id)) } ≡ a =
        stored_again id n a b i e in
      ground (arith, same, kept)
  | inr differ ↦
      let rest = put_award-find id n a awards i (ground (arith, h)) in rw (differ, differ) rest
]

-- Storing an award of the chain again puts it in the place of what the queue had for its achievement.
pub update-find :
    (a : Award) (s : Store)
    → a.achievement_id ≢ warning_achievement_id
    → InChain a (parts s)
    → find (is_for a.achievement_id) (update_pending_award a s).pending_awards ≡ some a
unfolding update_pending_award upsert_pending_award
update-find a s w h =
    let genuine : (a.achievement_id == warning_achievement_id) ≡ false = ground (arith, w) in
    rw genuine (
      put_award-find (next_json_id (map award_id s.pending_awards)) h.id.0 a s.pending_awards h.id.1
        h.found)

-- The award that an answer leaves in the queue.
unfoldable pub answered : Sent → Award → Award
answered success a = record a { status = flushed; last_error = none }
answered (auth_error message) a = record a { status = pending; last_error = some message }
answered (network_error message) a = record a {
  retry_count = a.retry_count + 1;
  status = pending;
  last_error = some message;
}
answered raised a = a

-- Where the queue has the loop's award, at whatever status, any answer to sending it but an
-- exception puts the award there as the loop read it, with the status, the error and the count of
-- the answer; so a deletion that came after the reading is undone.
pub record_sent-overwrites :
    (answer : Sent) (a : Award) (p : Progress)
    → answer ≢ raised
    → a.achievement_id ≢ warning_achievement_id
    → InChain a (parts p.store)
    → find (is_for a.achievement_id) (record_sent answer a p).0.store.pending_awards
      ≡ some (answered answer a)
unfolding record_sent clear_invalid_token delete_cache answered
record_sent-overwrites success a p r w h =
    update-find (answered success a) p.store w (record { id = h.id; found = h.found })
record_sent-overwrites (auth_error m) a p r w h =
    update-find (answered (auth_error m) a) p.store w (record { id = h.id; found = h.found })
record_sent-overwrites (network_error m) a p r w h =
    update-find (answered (network_error m) a) p.store w (record { id = h.id; found = h.found })
record_sent-overwrites raised a p r w h = absurd (r refl)
