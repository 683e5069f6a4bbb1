-- ===== src/Queue/Sound.antt =====
-- A sound queue, and the operations that keep it: queueing, deleting, the flush loop, the purge.
use raoffline_proxy.Prelude.{
  ℕ, ◌≤◌, ◌<◌, ◌≡◌, ◌≢◌, refl, sym, ◌∙◌, subst, Bool, true, false, some, List, [], ◌∷◌, ◌++◌, map,
  Text, arith, find, any-All, All, All-map, All-of_map, All-to_map, All-find, All-snoc, Distinct,
  Distinct-snoc, Distinct-of_map, Distinct-to_map, Bool-cases, Option-cases, inl, inr, ◌==◌, ltb,
}
use raoffline_proxy.Prelude.Sorted.{sort}
use raoffline_proxy.Storage.{Award, Store, pending, deleted, next_json_id, empty_store}
use raoffline_proxy.Storage.Awards.{
  award_id, get_pending_awards, is_for, pending_award_exists, put_award, upsert_pending_award,
  update_pending_award, warning_achievement_id, pending_awards_exist_by_status,
}
use raoffline_proxy.Storage.AwardLaws.{same_achievement, IsQueue, upsert_new, stored_new}
use raoffline_proxy.AwardSigning.{Crypto}
use raoffline_proxy.Flusher.Chain.{valid, verify_chain}
use raoffline_proxy.Flusher.Run.Parts.{
  ChainPart, chain_part, parts, InChain, upsert-parts, verify_chain-parts,
}
use raoffline_proxy.Flusher.Run.Kept.{queue-InChain}
use raoffline_proxy.Flusher.Run.Purge.{is_known, purge_processed_awards_if_safe, purge_lem}
use raoffline_proxy.Proxy.AwardQueue.{Clock, new_award, queue_checked}
use raoffline_proxy.Proxy.AwardQueue.ChainKept.{stored-valid}
use raoffline_proxy.PendingAwards.{mark_deleted}

-- A status that the program writes.
abbrev pub HasKnownStatus : Award → Type 0
HasKnownStatus a = is_known a.status ≡ true

-- A well-formed queue of known statuses with a valid chain.
pub record IsSound (c : Crypto) (secret : Text) (s : Store) : Type 0 where
  pub queue : IsQueue s.pending_awards
  pub known : All HasKnownStatus s.pending_awards
  pub chain : verify_chain c secret (get_pending_awards s) ≡ valid

-- The invariant is one of the awards alone.
pub IsSound-awards :
    (c : Crypto) (secret : Text) (s t : Store)
    → t.pending_awards ≡ s.pending_awards
    → IsSound c secret s
    → IsSound c secret t
IsSound-awards c secret s t e h = record {
  queue = subst IsQueue (sym e) h.queue;
  known = subst (All HasKnownStatus) (sym e) h.known;
  chain = unfold get_pending_awards in rw e h.chain;
}

IsQueue-parts :
    (xs ys : List Award) → map chain_part ys ≡ map chain_part xs → IsQueue xs → IsQueue ys
IsQueue-parts xs ys e q = record {
  distinct =
      Distinct-to_map chain_part (λ (k l : ChainPart). l.achievement_id == k.achievement_id) ys
        (subst (Distinct (λ (k l : ChainPart). l.achievement_id == k.achievement_id)) (sym e) (
          Distinct-of_map chain_part (λ (k l : ChainPart). l.achievement_id == k.achievement_id) xs
            q.distinct));
  ids =
      All-to_map chain_part (λ k. (n : ℕ) × (k.id ≡ some n)) ys
        (subst (All (λ (k : ChainPart). (n : ℕ) × (k.id ≡ some n))) (sym e)
          (All-of_map chain_part (λ k. (n : ℕ) × (k.id ≡ some n)) xs q.ids));
  genuine =
      All-to_map chain_part (λ k. (k.achievement_id == warning_achievement_id) ≡ false) ys
        (subst (All (λ (k : ChainPart). (k.achievement_id == warning_achievement_id) ≡ false))
          (sym e)
          (All-of_map chain_part (λ k. (k.achievement_id == warning_achievement_id) ≡ false) xs
            q.genuine));
}

-- A change of no part, with known statuses, keeps the queue sound.
pub IsSound-parts :
    (c : Crypto) (secret : Text) (s t : Store)
    → parts t ≡ parts s
    → All HasKnownStatus t.pending_awards
    → IsSound c secret s
    → IsSound c secret t
IsSound-parts c secret s t e k h = record {
  queue = IsQueue-parts s.pending_awards t.pending_awards e h.queue;
  known = k;
  chain = verify_chain-parts c secret t s e ∙ h.chain;
}

put_award-known :
    (id : ℕ) (a : Award) (xs : List Award)
    → HasKnownStatus a
    → All HasKnownStatus xs
    → All HasKnownStatus (put_award id a xs)
unfolding put_award
put_award-known id a [] k h = (k, tt)
put_award-known id a (b ∷ xs) k h = elim (Bool-cases (is_for a.achievement_id b)) [
  | inl same ↦ rw same (k, h.1)
  | inr differ ↦ rw differ (h.0, put_award-known id a xs k h.1)
]

pub update-known :
    (a : Award) (s : Store)
    → HasKnownStatus a
    → All HasKnownStatus s.pending_awards
    → All HasKnownStatus (update_pending_award a s).pending_awards
unfolding update_pending_award upsert_pending_award
update-known a s k h = elim (Bool-cases (a.achievement_id == warning_achievement_id)) [
  | inl warning ↦ rw warning h
  | inr genuine ↦
      rw genuine
        (put_award-known (next_json_id (map award_id s.pending_awards)) a s.pending_awards k h)
]

-- Deleting an award in the menu keeps the queue sound: the award stays in the chain.
pub mark_deleted-IsSound :
    (c : Crypto) (secret : Text) (achievement : ℕ) (s : Store)
    → IsSound c secret s
    → IsSound c secret (mark_deleted achievement s)
unfolding mark_deleted
mark_deleted-IsSound c secret achievement s h =
    elim (Option-cases (find (is_for achievement) (get_pending_awards s))) [
      | inl none_there ↦ rw (none_there, mark_deleted) h
      | inr (a, found) ↦
          let there : InChain a (parts s) =
            All-find _ _ (get_pending_awards s) a (queue-InChain s h.queue) found in
          let marked : Award = record a { status = deleted } in
          rw (found, mark_deleted)
            (IsSound-parts c secret s (update_pending_award marked s)
              (upsert-parts marked s (record { id = there.id; found = there.found }))
              (update-known marked s (unfold is_known in refl) h.known) h)
    ]

pub empty-IsSound : (c : Crypto) (secret : Text) → IsSound c secret empty_store
unfolding get_pending_awards verify_chain sort
empty-IsSound c secret = record {
  queue = record { distinct = tt; ids = tt; genuine = tt };
  known = tt;
  chain = refl;
}

pub purge-IsSound :
    (c : Crypto) (secret : Text) (s : Store)
    → IsSound c secret s
    → IsSound c secret (purge_processed_awards_if_safe s)
purge-IsSound c secret s h = elim (Bool-cases (pending_awards_exist_by_status s pending)) [
  | inl waiting ↦
      IsSound-awards c secret s (purge_processed_awards_if_safe s)
        (purge_lem s h.known ∙ rw waiting refl) h
  | inr clear ↦
      IsSound-awards c secret empty_store (purge_processed_awards_if_safe s)
        (purge_lem s h.known ∙ rw clear refl) (empty-IsSound c secret)
]

new-IsQueue :
    (s : Store) (a : Award)
    → a.achievement_id ≢ warning_achievement_id
    → pending_award_exists s a.achievement_id ≡ false
    → IsQueue s.pending_awards
    → IsQueue (s.pending_awards ++ stored_new s a ∷ [])
unfolding pending_award_exists
new-IsQueue s a w e q = record {
  distinct = Distinct-snoc same_achievement s.pending_awards (stored_new s a) q.distinct (
      All-map _ _ (λ b other. ground (arith, other)) s.pending_awards
        (any-All (is_for a.achievement_id) s.pending_awards e));
  ids = All-snoc _ s.pending_awards (stored_new s a) q.ids (_, refl);
  genuine = All-snoc _ s.pending_awards (stored_new s a) q.genuine (ground (arith, w));
}

stored-IsSound :
    (c : Crypto) (secret : Text) (s : Store) (clock : Clock) (achievement : ℕ)
    (path body user_agent : Text)
    → achievement ≢ warning_achievement_id
    → pending_award_exists s achievement ≡ false
    → All (λ a. a.queued_at ≤ clock.queued) s.pending_awards
    → IsSound c secret s
    → IsSound c secret
        (upsert_pending_award (new_award c secret s clock achievement path body user_agent) s)
stored-IsSound c secret s clock achievement path body user_agent w e q h =
    let a = new_award c secret s clock achievement path body user_agent in
    let ha : a.achievement_id ≡ achievement = unfold new_award in refl in
    let wa : a.achievement_id ≢ warning_achievement_id = rw ha w in
    let ea : pending_award_exists s a.achievement_id ≡ false = rw ha e in
    let stored = upsert_new s a wa ea in
    let ka : HasKnownStatus (stored_new s a) = unfold new_award is_known in refl in
    record {
      queue = rw stored (new-IsQueue s a wa ea h.queue);
      known = rw stored (All-snoc HasKnownStatus s.pending_awards (stored_new s a) h.known ka);
      chain = stored-valid c secret s clock achievement path body user_agent w e q h.chain;
    }

-- Queueing keeps the queue sound, if the clock does not stand before the time at which an award was
-- queued.
pub queue_checked-IsSound :
    (c : Crypto) (secret : Text) (already_unlocked : Store → Text → Text → Bool) (s : Store)
    (clock : Clock) (achievement : ℕ) (path body user_agent : Text)
    → 0 < achievement
    → achievement ≢ warning_achievement_id
    → All (λ a. a.queued_at ≤ clock.queued) s.pending_awards
    → IsSound c secret s
    → IsSound c secret
        (queue_checked c secret already_unlocked clock achievement path body user_agent s)
unfolding queue_checked
queue_checked-IsSound c secret already_unlocked s clock achievement path body user_agent p w q h =
    let positive : ltb 0 achievement ≡ true = ground arith in
    elim (Bool-cases (pending_award_exists s achievement)) [
      | inl there ↦ rw (positive, there, queue_checked) h
      | inr new ↦ elim (Bool-cases (already_unlocked s path body)) [
        | inl unlocked ↦ rw (positive, new, unlocked, queue_checked) h
        | inr locked ↦
            rw (positive, new, locked, queue_checked)
              (stored-IsSound c secret s clock achievement path body user_agent w new q h)
      ]
    ]
