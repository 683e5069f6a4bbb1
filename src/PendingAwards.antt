-- ===== src/PendingAwards.antt =====
-- linux/raofflineproxy/pending_awards.py: what deleting an award in the menu does, and which awards
-- the menu lists. Their titles are left out.
use raoffline_proxy.Prelude.{ℕ, none, some, find, keep, List}
use raoffline_proxy.Storage.{Award, Store, deleted, pending}
use raoffline_proxy.Storage.Awards.{get_pending_awards, has_status, update_pending_award, is_for}

-- `delete_pending_award`: the first award of the achievement, in the order of the queue, is marked; it
-- stays in the store until the queue is purged.
unfoldable pub mark_deleted : ℕ → Store → Store
unfolding get_pending_awards update_pending_award find
mark_deleted achievement s = elim (find (is_for achievement) (get_pending_awards s)) [
  | none ↦ s
  | some a ↦ update_pending_award (record a { status = deleted }) s
]

-- The awards that `list_pending_awards` lists.
unfoldable pub waiting_awards : Store → List Award
unfolding get_pending_awards keep
waiting_awards s = keep (has_status pending) (get_pending_awards s)
