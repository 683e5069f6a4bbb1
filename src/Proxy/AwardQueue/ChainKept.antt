-- ===== src/Proxy/AwardQueue/ChainKept.antt =====
-- Queueing keeps the chain of linux/raofflineproxy/flusher.py valid.
use raoffline_proxy.Prelude.{
  ℕ, ◌≤◌, ◌<◌, ◌≡◌, ◌≢◌, refl, Bool, true, false, none, some, Text, arith, ltb, subst, All,
  Bool-cases, inl, inr,
}
use raoffline_proxy.Storage.{Store}
use raoffline_proxy.Storage.Awards.{
  get_pending_awards, get_latest_pending_award, pending_award_exists, upsert_pending_award,
  warning_achievement_id,
}
use raoffline_proxy.Storage.AwardLaws.{get-upsert_new, stored_new}
use raoffline_proxy.AwardSigning.{Crypto, verify-sign}
use raoffline_proxy.Flusher.Chain.{valid, verify_chain, canonical_payload}
use raoffline_proxy.Flusher.Repair.{IsLinked, IsChain-snoc, verify_iff, newest, newest-none}
use raoffline_proxy.Proxy.AwardQueue.{Clock, new_award, queue_checked, queue_award, achievement_of}

module _ (c : Crypto) (secret : Text) where
  new_award-IsLinked :
      (s : Store) (clock : Clock) (achievement : ℕ) (path body user_agent : Text)
      → IsLinked c secret
          (newest none (get_pending_awards s))
          (stored_new s (new_award c secret s clock achievement path body user_agent))
  unfolding new_award get_latest_pending_award canonical_payload
  new_award-IsLinked s clock achievement path body user_agent =
      rw newest-none
        (record { hash = λ e. refl; link = λ e. refl; signed = λ e. verify-sign c secret _ })

  pub stored-valid :
      (s : Store) (clock : Clock) (achievement : ℕ) (path body user_agent : Text)
      → achievement ≢ warning_achievement_id
      → pending_award_exists s achievement ≡ false
      → All (λ a. a.queued_at ≤ clock.queued) s.pending_awards
      → verify_chain c secret (get_pending_awards s) ≡ valid
      → verify_chain c secret (
          get_pending_awards
            (upsert_pending_award (new_award c secret s clock achievement path body user_agent) s))
        ≡ valid
  stored-valid s clock achievement path body user_agent w e q v =
      let a = new_award c secret s clock achievement path body user_agent in
      let link = new_award-IsLinked s clock achievement path body user_agent in
      unfold new_award in
      rw (get-upsert_new s a refl w e q) (
        (verify_iff c secret _).1 (
          IsChain-snoc c secret none (get_pending_awards s) (stored_new s a)
            ((verify_iff c secret _).0 v) link))

module _ (c : Crypto) (secret : Text) (already_unlocked : Store → Text → Text → Bool) where
  queue_checked-valid :
      (s : Store) (clock : Clock) (achievement : ℕ) (path body user_agent : Text)
      → 0 < achievement
      → achievement ≢ warning_achievement_id
      → All (λ a. a.queued_at ≤ clock.queued) s.pending_awards
      → verify_chain c secret (get_pending_awards s) ≡ valid
      → verify_chain c secret (
          get_pending_awards
            (queue_checked c secret already_unlocked clock achievement path body user_agent s))
        ≡ valid
  unfolding queue_checked
  queue_checked-valid s clock achievement path body user_agent p w q v =
      let positive : ltb 0 achievement ≡ true = ground arith in
      elim (Bool-cases (pending_award_exists s achievement)) [
        | inl there ↦ rw (positive, there) v
        | inr new ↦ elim (Bool-cases (already_unlocked s path body)) [
          | inl unlocked ↦ rw (positive, new, unlocked) v
          | inr locked ↦
              rw (positive, new, locked)
                (stored-valid c secret s clock achievement path body user_agent w new q v)
        ]
      ]

  -- Queueing an award keeps the chain valid, whether the award is new or known, if the clock does
  -- not stand before the time at which an award was queued.
  pub queue_award-valid :
      (s s' : Store) (clock : Clock) (achievement : ℕ) (path body user_agent : Text)
      → achievement_of path body ≡ some achievement
      → 0 < achievement
      → achievement ≢ warning_achievement_id
      → All (λ a. a.queued_at ≤ clock.queued) s.pending_awards
      → verify_chain c secret (get_pending_awards s) ≡ valid
      → queue_award c secret already_unlocked clock path body user_agent s ≡ some s'
      → verify_chain c secret (get_pending_awards s') ≡ valid
  unfolding queue_award
  queue_award-valid s s' clock achievement path body user_agent a p w q v h =
      subst (λ (x : Store). verify_chain c secret (get_pending_awards x) ≡ valid) (same h)
        (queue_checked-valid s clock achievement path body user_agent p w q v)
    where
      same :
          queue_award c secret already_unlocked clock path body user_agent s ≡ some s'
          → queue_checked c secret already_unlocked clock achievement path body user_agent s ≡ s'
      same e = ground arith

  -- Queueing an award a second time changes nothing.
  pub queue_award-again :
      (s : Store) (clock : Clock) (achievement : ℕ) (path body user_agent : Text)
      → achievement_of path body ≡ some achievement
      → 0 < achievement
      → pending_award_exists s achievement ≡ true
      → queue_award c secret already_unlocked clock path body user_agent s ≡ some s
  unfolding queue_award queue_checked
  queue_award-again s clock achievement path body user_agent a p e = ground arith
