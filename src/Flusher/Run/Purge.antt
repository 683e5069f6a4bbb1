-- ===== src/Flusher/Run/Purge.antt =====
-- `purge_processed_awards_if_safe` of linux/raofflineproxy/flusher.py.
use raoffline_proxy.Prelude.{
  ◌≡◌, refl, Bool, true, false, not, List, [], ◌∷◌, arith, if◌then◌else◌, any, keep, Bool-cases,
  inl, inr, All,
}
use raoffline_proxy.Storage.{
  Award, Status, Store, pending, deleted, stale, flushed, other, status_eq,
}
use raoffline_proxy.Storage.Awards.{
  has_status, status_among, pending_awards_exist_by_status, delete_pending_awards_by_statuses,
}

abbrev pub processed : List Status
processed = deleted ∷ stale ∷ flushed ∷ []

unfoldable pub purge_processed_awards_if_safe : Store → Store
unfolding pending_awards_exist_by_status delete_pending_awards_by_statuses
purge_processed_awards_if_safe s =
    if pending_awards_exist_by_status s pending
    then s
    else delete_pending_awards_by_statuses processed s

-- One of the four statuses that the program writes.
unfoldable pub is_known : Status → Bool
is_known (other s) = false
is_known _ = true

keep-known :
    (awards : List Award)
    → any (has_status pending) awards ≡ false
    → All (λ a. is_known a.status ≡ true) awards
    → keep (λ a. not (status_among processed a)) awards ≡ []
unfolding keep any
keep-known [] e k = refl
keep-known (a ∷ awards) e k = elim (Bool-cases (status_among processed a)) [
  | inl among ↦ rw among (keep-known awards (ground arith) k.1)
  | inr not_among ↦ absurd (unfold any status_eq is_known in ground arith)
]

-- As long as one award is pending nothing is deleted, so the chain stays whole; with none pending
-- every award is deleted, and the next one starts a new chain.
pub purge_lem :
    (s : Store)
    → All (λ a. is_known a.status ≡ true) s.pending_awards
    → (purge_processed_awards_if_safe s).pending_awards
      ≡ (if pending_awards_exist_by_status s pending then s.pending_awards else [])
unfolding purge_processed_awards_if_safe
purge_lem s k = elim (Bool-cases (any (has_status pending) s.pending_awards)) [
  | inl wait ↦ rw wait
  | inr clear ↦ rw clear (keep-known s.pending_awards clear k)
]
