-- ===== src/Proxy/Requests/Queued.antt =====
-- What an award request leaves in the store: `handle_award_request` as `process_proxy_request` of
-- linux/raofflineproxy/proxy_service.py calls it.
use raoffline_proxy.Prelude.{
  ℕ, ◌⊎◌, true, Bool, arith, ◌≡◌, refl, ltb, sym, subst, false, ◌&&◌, Option, none, some, Text,
  ◌==◌, if-both, Option-cases, inl, inr,
}
use raoffline_proxy.Json.{Codec}
use raoffline_proxy.Storage.{Award, Entry, Store}
use raoffline_proxy.Storage.Cache.{get_cache}
use raoffline_proxy.Server.{Server}
use raoffline_proxy.FormParams.{is_hardcore_request}
use raoffline_proxy.AwardSigning.{Crypto}
use raoffline_proxy.Storage.Awards.{
  upsert_pending_award, upsert_pending_award_json, pending_award_exists, warning_achievement_id,
}
use raoffline_proxy.Proxy.AwardQueue.{
  Reply, queued_offline, network_error, success, http_error, achievement_of, new_award,
  queue_checked, queue_award, queue_offline_award, handle_award_request,
}
use raoffline_proxy.Proxy.Requests.Dispatch.{at_award, Outside, agent_or_fallback, handle_award}

module _ (json : Codec) (rewrite : Option Text → Text → Text) (server : Server)
    (same_game : Store → Text → Text → Option Entry) (o : Outside) (path body : Text) (c : Crypto)
    (secret : Text) (already_unlocked : Store → Text → Text → Bool) where
  -- What an award request does to a store: nothing, or it queues its softcore award.
  abbrev pub Queues : Option Text → Store → Store → Type 0
  Queues user_agent s' s =
      (achievement : ℕ) × (achievement_of path body ≡ some achievement)
      × (is_hardcore_request path body ≡ false)
      × (s'
          ≡ queue_checked c secret already_unlocked o.award_clock achievement path body
              (agent_or_fallback user_agent) s)

  -- The store after an award was handled, where an exception leaves it.
  abbrev store_of : Store → Option (Store × Reply) → Store
  store_of s none = s
  store_of s (some (s', reply)) = s'

  abbrev IsHandled : Option Text → Store → Option (Store × Reply) → Type 0
  IsHandled user_agent s r = (store_of s r ≡ s) ⊎ Queues user_agent (store_of s r) s

  offline-Queues :
      (user_agent : Option Text) (s : Store)
      → is_hardcore_request path body ≡ false
      → IsHandled user_agent s (
          queue_offline_award c secret already_unlocked o.award_clock path body
            (agent_or_fallback user_agent)
            s)
  unfolding queue_offline_award queue_award
  offline-Queues user_agent s soft = elim (Option-cases (achievement_of path body)) [
    | inl bad ↦ rw (bad, queue_offline_award) (inl refl)
    | inr (achievement, read) ↦
        let queued : queue_offline_award c secret already_unlocked o.award_clock path body
              (agent_or_fallback user_agent) s
            ≡ some (
              queue_checked c secret already_unlocked o.award_clock achievement path body
                  (agent_or_fallback user_agent) s,
              queued_offline achievement,
            ) =
          ground (arith, read) in
        subst (IsHandled user_agent s) (sym queued) (inr (achievement, read, soft, refl))
  ]

  request-Queues :
      (user_agent : Option Text) (s : Store)
      → IsHandled user_agent s (
          handle_award_request c secret already_unlocked
            (o.is_online at_award)
            o.upstream
            o.award_clock
            path
            body
            (agent_or_fallback user_agent)
            s)
  unfolding handle_award_request
  request-Queues user_agent s =
      let offline =
        queue_offline_award c secret already_unlocked o.award_clock path body
          (agent_or_fallback user_agent) s in
      if-both (IsHandled user_agent s) (is_hardcore_request path body)
        (some (s, Reply.hardcore_refused)) _ (λ hardcore. inl refl)
        λ soft.
          if-both (IsHandled user_agent s) (o.is_online at_award)
            (elim o.upstream [
              | success status answer ↦ some (s, Reply.forwarded status answer true)
              | http_error status answer ↦ some (s, Reply.forwarded status answer false)
              | network_error ↦ offline
            ])
            offline
            (λ on.
              elim o.upstream
                as (λ u. IsHandled user_agent s (elim u [
                  | success status answer ↦ some (s, Reply.forwarded status answer true)
                  | http_error status answer ↦ some (s, Reply.forwarded status answer false)
                  | network_error ↦ offline
                ])) [
                  | success status answer ↦ inl refl
                  | http_error status answer ↦ inl refl
                  | network_error ↦ offline-Queues user_agent s soft
                ])
            (λ off. offline-Queues user_agent s soft)

  taken-store :
      (s : Store) (r : Option (Store × Reply))
      → (elim r as (λ x. Store × Option Reply) [
        | none ↦ (s, none)
        | some (s', reply) ↦ (s', some reply)
      ]).0
        ≡ store_of s r
  taken-store s none = refl
  taken-store s (some (s', reply)) = refl

  pub award-Queues :
      (user_agent : Option Text) (s : Store)
      → let s' =
          (handle_award json rewrite server same_game o path body c secret already_unlocked
            (agent_or_fallback user_agent)
            s).0 in
        (s' ≡ s) ⊎ Queues user_agent s' s
  unfolding handle_award
  award-Queues user_agent s =
      let handled =
        handle_award_request c secret already_unlocked (o.is_online at_award) o.upstream
          o.award_clock path body (agent_or_fallback user_agent) s in
      subst (λ t. (t ≡ s) ⊎ Queues user_agent t s) (sym (taken-store s handled))
        (request-Queues user_agent s)

  upsert-cache :
      (k : Text) (a : Award) (s : Store) → get_cache (upsert_pending_award a s) k ≡ get_cache s k
  unfolding upsert_pending_award upsert_pending_award_json get_cache
  upsert-cache k a s =
      if-both (λ (t : Store). get_cache t k ≡ get_cache s k)
        (a.achievement_id == warning_achievement_id) s (upsert_pending_award_json a s)
        (λ warning. refl) (λ genuine. refl)

  pub queue_checked-cache :
      (k user_agent : Text) (achievement : ℕ) (s : Store)
      → get_cache
          (queue_checked c secret already_unlocked o.award_clock achievement path body user_agent s)
          k
        ≡ get_cache s k
  unfolding queue_checked
  queue_checked-cache k user_agent achievement s =
      let a = new_award c secret s o.award_clock achievement path body user_agent in
      let quiet : Store → Type 0 = λ t. get_cache t k ≡ get_cache s k in
      if-both quiet (ltb 0 achievement && pending_award_exists s achievement) s _ (λ there. refl)
        λ new.
          if-both quiet (ltb 0 achievement && already_unlocked s path body) s
            (upsert_pending_award a s) (λ unlocked. refl) (λ locked. upsert-cache k a s)
