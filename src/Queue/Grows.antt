-- ===== src/Queue/Grows.antt =====
-- What the proxy (proxy_service.py) and the menu (pending_awards.py) of linux/raofflineproxy do to the
-- queue beside the flush, and how the queue grows by it.
use raoffline_proxy.Prelude.{
  ℕ, ◌≤◌, ◌<◌, ◌≡◌, ◌≢◌, refl, sym, ◌∙◌, ap, Bool, true, Text, All, List, [], ◌∷◌, ◌++◌, map,
  map-append, append_assoc, append-nil, some, find, arith, ltb, ◌==◌, All-find, Bool-cases,
  Option-cases, inl, inr,
}
use raoffline_proxy.Storage.{Award, Store, deleted}
use raoffline_proxy.Storage.Awards.{
  get_pending_awards, is_for, pending_award_exists, warning_achievement_id,
}
use raoffline_proxy.Storage.AwardLaws.{IsQueue, stored_new, upsert_new}
use raoffline_proxy.AwardSigning.{Crypto}
use raoffline_proxy.Flusher.Run.Parts.{ChainPart, chain_part, parts, InChain, upsert-parts}
use raoffline_proxy.Flusher.Run.Kept.{queue-InChain}
use raoffline_proxy.Proxy.AwardQueue.{Clock, new_award, queue_checked}
use raoffline_proxy.PendingAwards.{mark_deleted}
use raoffline_proxy.Queue.Sound.{
  IsSound, IsSound-awards, mark_deleted-IsSound, queue_checked-IsSound,
}

-- The awards of the first store are in the second, in their order and with their links of the chain,
-- and before any others.
abbrev pub Extends : Store → Store → Type 0
Extends s t = (new : List ChainPart) × (parts t ≡ parts s ++ new)

pub Extends-same : (s t : Store) → parts t ≡ parts s → Extends s t
Extends-same s t e = ([], e ∙ sym (append-nil (parts s)))

pub Extends-trans : (s t u : Store) → Extends s t → Extends t u → Extends s u
Extends-trans s t u (new, e) (newer, f) =
    (new ++ newer, f ∙ ap (λ ps. ps ++ newer) e ∙ append_assoc (parts s) new newer)

find-append :
    {A : Type 0} (p : A → Bool) (xs ys : List A) (x : A)
    → find p xs ≡ some x
    → find p (xs ++ ys) ≡ some x
unfolding find
find-append p [] ys x h = absurd cc
find-append p (y ∷ xs) ys x h = elim (Bool-cases (p y)) [
  | inl hit ↦ ground (arith, h)
  | inr miss ↦ ground (arith, find-append p xs ys x)
]

pub InChain-Extends :
    (s t : Store) (a : Award) → Extends s t → InChain a (parts s) → InChain a (parts t)
InChain-Extends s t a (new, e) h = record {
  id = h.id;
  found = rw e (
      find-append (λ (p : ChainPart). p.achievement_id == a.achievement_id) (parts s) new
        (chain_part a) h.found);
}

queue-Extends :
    (c : Crypto) (secret : Text) (already_unlocked : Store → Text → Text → Bool) (s : Store)
    (clock : Clock) (achievement : ℕ) (path body user_agent : Text)
    → 0 < achievement
    → achievement ≢ warning_achievement_id
    → Extends s (queue_checked c secret already_unlocked clock achievement path body user_agent s)
unfolding queue_checked
queue-Extends c secret already_unlocked s clock achievement path body user_agent p w =
    let positive : ltb 0 achievement ≡ true = ground arith in
    let a = new_award c secret s clock achievement path body user_agent in
    let ha : a.achievement_id ≡ achievement = unfold new_award in refl in
    elim (Bool-cases (pending_award_exists s achievement)) [
      | inl there ↦ rw (positive, there, queue_checked) (Extends-same s s refl)
      | inr new ↦ elim (Bool-cases (already_unlocked s path body)) [
        | inl unlocked ↦ rw (positive, new, unlocked, queue_checked) (Extends-same s s refl)
        | inr locked ↦
            rw (positive, new, locked, queue_checked)
              (
                chain_part (stored_new s a) ∷ [],
                ap (map chain_part) (upsert_new s a (rw ha w) (rw ha new))
                    ∙ map-append chain_part s.pending_awards (stored_new s a ∷ []),
              )
      ]
    ]

delete-parts :
    (achievement : ℕ) (s : Store)
    → IsQueue s.pending_awards
    → parts (mark_deleted achievement s) ≡ parts s
unfolding mark_deleted
delete-parts achievement s q =
    elim (Option-cases (find (is_for achievement) (get_pending_awards s))) [
      | inl none_there ↦ rw (none_there, mark_deleted) refl
      | inr (a, found) ↦
          let there : InChain a (parts s) =
            All-find _ _ (get_pending_awards s) a (queue-InChain s q) found in
          rw (found, mark_deleted)
            (upsert-parts (record a { status = deleted }) s
              (record { id = there.id; found = there.found }))
    ]

module _ (c : Crypto) (secret : Text) (already_unlocked : Store → Text → Text → Bool) where
  pub data Change : Store → Store → Type 0 where
    -- an award of an achievement that is no leaderboard and not the synthetic warning, while the clock
    -- does not stand before the time at which an award was queued
    queue :
        {s : Store} (clock : Clock) (achievement : ℕ) (path body user_agent : Text)
        → 0 < achievement
        → achievement ≢ warning_achievement_id
        → All (λ a. a.queued_at ≤ clock.queued) s.pending_awards
        → Change s
            (queue_checked c secret already_unlocked clock achievement path body user_agent s)
    delete : {s : Store} (achievement : ℕ) → Change s (mark_deleted achievement s)
    cache : {s t : Store} → t.pending_awards ≡ s.pending_awards → Change s t

  pub Change-IsSound : (s t : Store) → Change s t → IsSound c secret s → IsSound c secret t
  Change-IsSound s t (Change.queue clock achievement path body user_agent p w q) h =
      queue_checked-IsSound c secret already_unlocked s clock achievement path body user_agent p w q
        h
  Change-IsSound s t (Change.delete achievement) h = mark_deleted-IsSound c secret achievement s h
  Change-IsSound s t (Change.cache e) h = IsSound-awards c secret s t e h

  pub Change-Extends : (s t : Store) → Change s t → IsSound c secret s → Extends s t
  Change-Extends s t (Change.queue clock achievement path body user_agent p w q) h =
      queue-Extends c secret already_unlocked s clock achievement path body user_agent p w
  Change-Extends s t (Change.delete achievement) h =
      Extends-same s (mark_deleted achievement s) (delete-parts achievement s h.queue)
  Change-Extends s t (Change.cache e) h = Extends-same s t (ap (map chain_part) e)
