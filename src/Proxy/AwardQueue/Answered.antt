-- ===== src/Proxy/AwardQueue/Answered.antt =====
-- What the emulator may rely on when linux/raofflineproxy/proxy_service.py answers an award request.
use raoffline_proxy.Prelude.{
  ℕ, ◌<◌, ◌≡◌, ◌≢◌, refl, ap, ◌∙◌, Bool, true, false, some, List, [], ◌∷◌, ◌++◌, Text, arith, any,
  ltb, Bool-cases, inl, inr, subst,
}
use raoffline_proxy.FormParams.{is_hardcore_request}
use raoffline_proxy.Storage.{Award, Store}
use raoffline_proxy.Storage.Awards.{
  is_for, pending_award_exists, upsert_pending_award, warning_achievement_id,
}
use raoffline_proxy.Storage.AwardLaws.{stored_new, upsert_new}
use raoffline_proxy.AwardSigning.{Crypto}
use raoffline_proxy.Proxy.AwardQueue.{
  Clock, Upstream, new_award, queue_checked, queue_award, achievement_of, queue_offline_award,
  queued_offline, handle_award_request,
}

any-snoc :
    (p : Award → Bool) (xs : List Award) (a : Award) → p a ≡ true → any p (xs ++ a ∷ []) ≡ true
unfolding any
any-snoc p [] a h = ground arith
any-snoc p (x ∷ xs) a h = ground (arith, any-snoc p xs a h)

module _ (c : Crypto) (secret : Text) (already_unlocked : Store → Text → Text → Bool) where
  stored_exists :
      (s : Store) (clock : Clock) (achievement : ℕ) (path body user_agent : Text)
      → achievement ≢ warning_achievement_id
      → pending_award_exists s achievement ≡ false
      → pending_award_exists
          (upsert_pending_award (new_award c secret s clock achievement path body user_agent) s)
          achievement
        ≡ true
  stored_exists s clock achievement path body user_agent w e =
      let a = new_award c secret s clock achievement path body user_agent in
      let ha : a.achievement_id ≡ achievement = unfold new_award in refl in
      let stored = upsert_new s a (rw ha w) (rw ha e) in
      unfold pending_award_exists in
      (ap (any (is_for achievement)) stored
        ∙ any-snoc (is_for achievement) s.pending_awards (stored_new s a) (rw ha (ground arith)))

  queue_checked_exists :
      (s : Store) (clock : Clock) (achievement : ℕ) (path body user_agent : Text)
      → 0 < achievement
      → achievement ≢ warning_achievement_id
      → already_unlocked s path body ≡ false
      → pending_award_exists
          (queue_checked c secret already_unlocked clock achievement path body user_agent s)
          achievement
        ≡ true
  unfolding queue_checked
  queue_checked_exists s clock achievement path body user_agent p w u =
      let positive : ltb 0 achievement ≡ true = ground arith in
      elim (Bool-cases (pending_award_exists s achievement)) [
        | inl there ↦ rw (positive, there, queue_checked) there
        | inr new ↦
            rw (positive, new, u, queue_checked)
              (stored_exists s clock achievement path body user_agent w new)
      ]

  queued-shape :
      (online : Bool) (upstream : Upstream) (clock : Clock) (path body user_agent : Text)
      (s s' : Store) (achievement : ℕ)
      → handle_award_request c secret already_unlocked online upstream clock path body user_agent s
        ≡ some (s', queued_offline achievement)
      → (is_hardcore_request path body ≡ false)
        × (achievement_of path body ≡ some achievement)
        × (queue_checked c secret already_unlocked clock achievement path body user_agent s ≡ s')
  unfolding handle_award_request queue_offline_award queue_award
  queued-shape online upstream clock path body user_agent s s' achievement h =
      (ground arith, ground arith, ground arith)

  -- An award that is answered as queued was a softcore award, and it is in the store, if its achievement
  -- is positive, not the synthetic warning and not unlocked already.
  pub queued_offline-exists :
      (online : Bool) (upstream : Upstream) (clock : Clock) (path body user_agent : Text)
      (s s' : Store) (achievement : ℕ)
      → handle_award_request c secret already_unlocked online upstream clock path body user_agent s
        ≡ some (s', queued_offline achievement)
      → 0 < achievement
      → achievement ≢ warning_achievement_id
      → already_unlocked s path body ≡ false
      → (is_hardcore_request path body ≡ false) × (pending_award_exists s' achievement ≡ true)
  queued_offline-exists online upstream clock path body user_agent s s' achievement h p w u =
      let (soft, named, stored) =
        queued-shape online upstream clock path body user_agent s s' achievement h in
      (
        soft,
        subst (λ (t : Store). pending_award_exists t achievement ≡ true) stored
            (queue_checked_exists s clock achievement path body user_agent p w u),
      )
