-- ===== src/Tests/Awards.antt =====
-- The queue of awards and its chain.
use mathlib.Core.List.{Perm}
use raoffline_proxy.Prelude.{
  ◌⊎◌, true, false, text_eq, ℕ, List, All, Text, ◌≤◌, ◌<◌, ◌↔◌, ◌≡◌, refl, some, none, [], ◌∷◌, map,
  codes, arith,
}
use raoffline_proxy.Storage.{Store, Award}
use raoffline_proxy.Storage.Awards.{get_pending_awards, upsert_pending_award, pending_award_exists}
use raoffline_proxy.Storage.AwardLaws.{IsQueue, InOrder, get_pending_awards_lem}
use raoffline_proxy.Flusher.Chain.{valid, invalid, link_broken, verify_chain, repair_pending_chain}
use raoffline_proxy.Flusher.Repair.{
  content, IsChain, IsIntact, verify_iff, repair-total, repair-verifies,
}
use raoffline_proxy.Flusher.Run.{check_chain}
use raoffline_proxy.Flusher.Run.ChainCheck.{IsChecked, check_chain_lem}
use raoffline_proxy.Flusher.Run.Loop.{send_all, start}
use raoffline_proxy.Flusher.Run.Parts.{parts}
use raoffline_proxy.Flusher.Run.Kept.{send_all-chain}
use raoffline_proxy.CacheKeys.Decimal.{decimal}
use raoffline_proxy.Server.{HttpPost}
use raoffline_proxy.Json.Plain.{plain_codec, loads, dumps}
use raoffline_proxy.Flusher.Send.{classify}
use raoffline_proxy.Flusher.Send.Outcomes.{
  SaysSuccess, RejectsLogin, classify-success, classify-auth_error,
}
use raoffline_proxy.FormParams.{is_hardcore_request}
use raoffline_proxy.Proxy.AwardQueue.Answered.{queued_offline-exists}
use raoffline_proxy.Proxy.AwardQueue.{
  Upstream, queue_offline_award, handle_award_request, queue_checked, new_award,
}
use raoffline_proxy.Proxy.AwardQueue.ChainKept.{queue_award-valid}
use raoffline_proxy.Tests.Data.{
  program, toy, secret, first_award, second_award, unlinked, one_award, two_awards, broken, clock,
  never_unlocked, half_online, outside,
}

chain_test :
    (verify_chain toy secret (get_pending_awards two_awards) ≡ valid)
    × (verify_chain toy secret (get_pending_awards broken) ≡ invalid link_broken 1)
unfolding program
chain_test = (refl, refl)

pub two-IsQueue : IsQueue two_awards.pending_awards
two-IsQueue = record {
  distinct = ((refl, tt), (tt, tt));
  ids = ((2, refl), ((1, refl), tt));
  genuine = (refl, (refl, tt));
}

broken-IsQueue : IsQueue broken.pending_awards
broken-IsQueue = record {
  distinct = ((refl, tt), (tt, tt));
  ids = ((1, refl), ((2, refl), tt));
  genuine = (refl, (refl, tt));
}

check_chain_lem_example :
    IsChecked toy secret broken
      (check_chain toy secret (λ i. 20) (get_pending_awards broken) broken)
check_chain_lem_example = check_chain_lem toy secret (λ i. 20) broken broken-IsQueue

queue_award-valid_example :
    verify_chain toy secret (
      get_pending_awards (
        upsert_pending_award
          (new_award toy secret one_award clock 6 (codes "/q?a=6") [] [])
          one_award))
    ≡ valid
unfolding program
queue_award-valid_example =
    queue_award-valid toy secret never_unlocked one_award
      (upsert_pending_award (new_award toy secret one_award clock 6 (codes "/q?a=6") [] [])
        one_award)
      clock 6 (codes "/q?a=6") [] [] refl (omega arith) (ground arith) (omega arith, tt) refl refl

send_all-chain_example :
    (parts (send_all half_online (get_pending_awards two_awards) (start two_awards)).0.store
      ≡ parts two_awards)
    × (verify_chain toy secret (
          get_pending_awards
            (send_all half_online (get_pending_awards two_awards) (start two_awards)).0.store)
        ≡ verify_chain toy secret (get_pending_awards two_awards))
send_all-chain_example = send_all-chain toy secret half_online two_awards two-IsQueue

verify_iff_example :
    (verify_chain toy secret (first_award ∷ second_award ∷ []) ≡ valid)
    ↔ IsChain toy secret none (first_award ∷ second_award ∷ [])
verify_iff_example = verify_iff toy secret (first_award ∷ second_award ∷ [])

intact : (All (IsIntact toy secret) (first_award ∷ unlinked ∷ []))
unfolding program
intact = (record { hash = λ e. refl }, (record { hash = λ e. refl }, tt))

repair-total_example :
    (r : List Award) × (repair_pending_chain toy secret (λ i. 20) (first_award ∷ unlinked ∷ [])
      ≡ some r)
    × (verify_chain toy secret r ≡ valid)
    × (map content r ≡ map content (first_award ∷ unlinked ∷ []))
repair-total_example = repair-total toy secret (λ i. 20) (first_award ∷ unlinked ∷ []) intact

-- What the repair makes of the broken chain.
abbrev repaired : List Award
repaired = record first_award { signed_at = 20 } ∷ record second_award { signed_at = 20 } ∷ []

repair-verifies_example :
    All (IsIntact toy secret) (first_award ∷ unlinked ∷ [])
    × (verify_chain toy secret repaired ≡ valid)
    × (map content repaired ≡ map content (first_award ∷ unlinked ∷ []))
unfolding program
repair-verifies_example =
    repair-verifies toy secret (λ i. 20) (first_award ∷ unlinked ∷ []) repaired refl

get_pending_awards_lem_example :
    InOrder (get_pending_awards two_awards)
    × Perm (get_pending_awards two_awards) two_awards.pending_awards
get_pending_awards_lem_example = get_pending_awards_lem two_awards

classify-success_example :
    (status : ℕ) × (body : Text) × (outside.server.award [] [] [] ≡ HttpPost.answer status body)
    × (200 ≤ status)
    × (status < 300)
    × SaysSuccess (plain_codec.loads body)
unfolding classify loads dumps text_eq
classify-success_example = classify-success plain_codec (outside.server.award [] [] []) refl

classify-auth_error_example :
    (status : ℕ) × (body : Text) × (HttpPost.answer 403 (codes "no") ≡ HttpPost.answer status body)
    × (((status ≡ 401) ⊎ (status ≡ 403))
        ⊎ ((200 ≤ status)
            × (status < 300)
            × RejectsLogin (plain_codec.loads body) (codes "Token rejected by server (HTTP 403)")))
unfolding classify decimal
classify-auth_error_example =
    classify-auth_error plain_codec (HttpPost.answer 403 (codes "no"))
      (codes "Token rejected by server (HTTP 403)") refl

-- The store after the second award is queued.
abbrev after_second : Store
after_second = queue_checked toy secret never_unlocked clock 6 (codes "/q?a=6") [] [] one_award

queued_offline-exists_example :
    (is_hardcore_request (codes "/q?a=6") [] ≡ false) × (pending_award_exists after_second 6 ≡ true)
unfolding program handle_award_request is_hardcore_request queue_offline_award
queued_offline-exists_example =
    queued_offline-exists toy secret never_unlocked false Upstream.network_error clock
      (codes "/q?a=6") [] [] one_award after_second 6 refl (omega arith) (ground arith) refl
