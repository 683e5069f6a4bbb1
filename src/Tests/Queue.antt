-- ===== src/Tests/Queue.antt =====
-- The life of the queue, the flush, the purge.
use raoffline_proxy.Prelude.{◌≡◌, refl, [], codes, arith, find, keep, not, some, if◌then◌else◌}
use raoffline_proxy.Json.Plain.{plain_codec}
use raoffline_proxy.Storage.{Store, pending, empty_store}
use raoffline_proxy.Storage.Awards.{get_pending_awards, is_for, pending_awards_exist_by_status}
use raoffline_proxy.Flusher.Run.{check_chain, proceed, flush_pending_awards}
use raoffline_proxy.Flusher.Run.Outcome.{IsBounded, flush-IsBounded}
use raoffline_proxy.Flusher.Run.Purge.{is_known, purge_processed_awards_if_safe, purge_lem}
use raoffline_proxy.Proxy.AwardQueue.{queue_checked}
use raoffline_proxy.Queue.Sound.{IsSound}
use raoffline_proxy.Queue.Flushed.{flush-IsSound}
use raoffline_proxy.Queue.Grows.{Change, Extends}
use raoffline_proxy.Queue.Interleaved.{Interleaved, Interleaved-IsSound}
use raoffline_proxy.Queue.Overwritten.{answered, record_sent-overwrites}
use raoffline_proxy.Flusher.Run.Loop.{Progress, act, choose, choose_by, record_sent, start}
use raoffline_proxy.Flusher.Award.{is_hardcore_award}
use raoffline_proxy.Flusher.Send.{network_error}
use raoffline_proxy.PendingAwards.{mark_deleted, waiting_awards}
use raoffline_proxy.Queue.Removed.{waiting_awards-mark_deleted}
use raoffline_proxy.Queue.Reachable.{
  Step, Reachable, next, reachable-IsSound, reachable-check_chain,
}
use raoffline_proxy.Tests.Data.{
  program, toy, secret, first_award, second_award, half_online, two_awards, clock, never_unlocked,
  outside, agents, md5,
}
use raoffline_proxy.Tests.Awards.{two-IsQueue}

-- The store after an award is queued, then deleted by the user.
abbrev queued : Store
queued = queue_checked toy secret never_unlocked clock 5 (codes "/q?a=5") [] [] empty_store

queued-Reachable : Reachable plain_codec toy secret md5 agents never_unlocked queued
queued-Reachable =
    next Reachable.start
      (Step.other (Change.queue clock 5 (codes "/q?a=5") [] [] (omega arith) (ground arith) tt))

reachable-IsSound_example : IsSound toy secret queued
reachable-IsSound_example =
    reachable-IsSound plain_codec toy secret md5 agents never_unlocked queued queued-Reachable

reachable-check_chain_example :
    check_chain toy secret (λ i. 20) (get_pending_awards queued) queued
    ≡ (queued, proceed (get_pending_awards queued))
reachable-check_chain_example =
    reachable-check_chain plain_codec toy secret md5 agents never_unlocked (λ i. 20) queued
      queued-Reachable

two-IsSound : IsSound toy secret two_awards
unfolding program is_known
two-IsSound = record { queue = two-IsQueue; known = (refl, (refl, tt)); chain = refl }

flush-IsSound_example :
    IsSound toy secret (flush_pending_awards plain_codec toy secret md5 agents outside two_awards).0
flush-IsSound_example =
    flush-IsSound plain_codec toy secret md5 agents outside two_awards two-IsSound

flush-IsBounded_example :
    IsBounded (flush_pending_awards plain_codec toy secret md5 agents outside two_awards).1
flush-IsBounded_example = flush-IsBounded plain_codec toy secret md5 agents outside two_awards

purge_lem_example :
    (purge_processed_awards_if_safe two_awards).pending_awards
    ≡ (if pending_awards_exist_by_status two_awards pending then two_awards.pending_awards else [])
unfolding is_known
purge_lem_example = purge_lem two_awards (refl, (refl, tt))

-- While the first award is sent, a third one is queued; then the user deletes the second one, which is
-- sent all the same.
abbrev joined : Store
joined = queue_checked toy secret never_unlocked clock 7 (codes "/q?a=7") [] [] two_awards

abbrev after_first : Progress
after_first = (act half_online (choose half_online first_award) first_award (start joined)).0

abbrev after_second : Progress
after_second =
    (act half_online (choose half_online second_award) second_award
      (record after_first { store = mark_deleted 6 after_first.store })).0

Interleaved-IsSound_example :
    IsSound toy secret after_second.store × Extends two_awards after_second.store
unfolding program find mark_deleted act choose_by is_hardcore_award
Interleaved-IsSound_example =
    Interleaved-IsSound toy secret never_unlocked half_online two_awards after_second two-IsSound (
      Interleaved.meanwhile {t = joined}
        (Change.queue clock 7 (codes "/q?a=7") [] [] (omega arith) (ground arith)
          (omega arith, (omega arith, tt)))
        (Interleaved.on {a = first_award} {p = start joined} refl (
          Interleaved.meanwhile {t = mark_deleted 6 after_first.store} (Change.delete 6) (
            Interleaved.on {a = second_award}
              {p = record after_first { store = mark_deleted 6 after_first.store }} refl
              Interleaved.ended))))

record_sent-overwrites_example :
    find
      (is_for 5)
      (record_sent
        (network_error (codes "timeout"))
        first_award
        (start (mark_deleted 5 two_awards))).0.store.pending_awards
    ≡ some (answered (network_error (codes "timeout")) first_award)
unfolding program find mark_deleted
record_sent-overwrites_example =
    record_sent-overwrites (network_error (codes "timeout")) first_award
      (start (mark_deleted 5 two_awards)) (λ e. absurd cc) (ground arith)
      (record { id = (1, refl); found = refl })

waiting_awards-mark_deleted_example :
    waiting_awards (mark_deleted 5 two_awards)
    ≡ keep (λ a. not (is_for 5 a)) (waiting_awards two_awards)
waiting_awards-mark_deleted_example = waiting_awards-mark_deleted 5 two_awards two-IsQueue
