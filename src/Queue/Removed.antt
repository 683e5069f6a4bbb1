-- ===== src/Queue/Removed.antt =====
-- What the menu lists after it has deleted an award: linux/raofflineproxy/pending_awards.py.
use raoffline_proxy.Prelude.{
  ℕ, ◌≡◌, refl, sym, ◌∙◌, ap, true, false, not, none, some, List, [], ◌∷◌, map, arith, find,
  find_sound, keep, subst, Distinct, All, All-find, Bool-cases, Option-cases, inl, inr, ◌==◌,
  get_or,
}
use raoffline_proxy.Prelude.Sorted.{sort, insert, sort-All}
use raoffline_proxy.Storage.{Award, Store, deleted, pending, status_eq, next_json_id}
use raoffline_proxy.Storage.Awards.{
  award_id, award_le, get_pending_awards, has_status, is_for, put_award, upsert_pending_award,
  update_pending_award, warning_achievement_id,
}
use raoffline_proxy.Storage.AwardLaws.{IsQueue, same_achievement}
use raoffline_proxy.Flusher.Run.Parts.{
  ChainPart, InChain, chain_part, parts, stored_again, with_part,
}
use raoffline_proxy.Flusher.Run.Kept.{queue-InChain}
use raoffline_proxy.PendingAwards.{mark_deleted, waiting_awards}

-- The second award is the first one, or, for the achievement, one in its place that is deleted.
record MarkedAs (n : ℕ) (a b : Award) : Type 0 where
  part : chain_part b ≡ chain_part a
  gone : is_for n a ≡ true → b.status ≡ deleted
  same : is_for n a ≡ false → b ≡ a

data Marked (n : ℕ) : List Award → List Award → Type 0 where
  none_left : Marked n [] []
  more :
      {a b : Award} {xs ys : List Award}
      → MarkedAs n a b
      → Marked n xs ys
      → Marked n (a ∷ xs) (b ∷ ys)

insert-Marked :
    (n : ℕ) (x y : Award) (xs ys : List Award)
    → MarkedAs n x y
    → Marked n xs ys
    → Marked n (insert award_le x xs) (insert award_le y ys)
unfolding insert award_le
insert-Marked n x y [] [] m none_left = more m none_left
insert-Marked n x y [] (v ∷ ys) m h = elim h [ ]
insert-Marked n x y (u ∷ xs) [] m h = elim h [ ]
insert-Marked n x y (u ∷ xs) (v ∷ ys) m (more mu ms) =
    let order : award_le y v ≡ award_le x u =
      λ i. award_le (with_part (m.part i)) (with_part (mu.part i)) in
    let later = insert-Marked n x y xs ys m ms in
    elim (Bool-cases (award_le x u)) [
      | inl before ↦ rw (order, before) (more m (more mu ms))
      | inr after ↦ rw (order, after) (more mu later)
    ]

sort-Marked :
    (n : ℕ) (xs ys : List Award) → Marked n xs ys → Marked n (sort award_le xs) (sort award_le ys)
unfolding sort
sort-Marked n [] [] none_left = none_left
sort-Marked n [] (v ∷ ys) h = elim h [ ]
sort-Marked n (u ∷ xs) [] h = elim h [ ]
sort-Marked n (u ∷ xs) (v ∷ ys) (more m ms) =
    insert-Marked n u v (sort award_le xs) (sort award_le ys) m (sort-Marked n xs ys ms)

waiting-Marked :
    (n : ℕ) (xs ys : List Award)
    → Marked n xs ys
    → keep (has_status pending) ys ≡ keep (λ a. not (is_for n a)) (keep (has_status pending) xs)
unfolding keep status_eq
waiting-Marked n [] [] none_left = refl
waiting-Marked n [] (b ∷ ys) h = elim h [ ]
waiting-Marked n (a ∷ xs) [] h = elim h [ ]
waiting-Marked n (a ∷ xs) (b ∷ ys) (more m ms) =
    let later = waiting-Marked n xs ys ms in
    elim (Bool-cases (is_for n a)) [
      | inl for_it ↦
          let g = m.gone for_it in
          elim (Bool-cases (has_status pending a)) [
            | inl waits ↦ rw (g, waits, for_it) later
            | inr done ↦ rw (g, done) later
          ]
      | inr other ↦
          let s = m.same other in
          elim (Bool-cases (has_status pending a)) [
            | inl waits ↦ rw (s, waits, other, later) refl
            | inr done ↦ rw (s, done) later
          ]
    ]

unmarked : (n : ℕ) (xs : List Award) → All (λ a. is_for n a ≡ false) xs → Marked n xs xs
unmarked n [] h = none_left
unmarked n (a ∷ xs) h =
    more (record { part = refl; gone = λ e. absurd cc; same = λ e. refl }) (unmarked n xs h.1)

put_award-Marked :
    (id i : ℕ) (a : Award) (awards : List Award)
    → a.status ≡ deleted
    → a.id ≡ some i
    → Distinct same_achievement awards
    → find (λ (p : ChainPart). p.achievement_id == a.achievement_id) (map chain_part awards)
      ≡ some (chain_part a)
    → Marked a.achievement_id awards (put_award id a awards)
unfolding put_award find
put_award-Marked id i a [] st e d h = absurd cc
put_award-Marked id i a (b ∷ awards) st e d h = elim (Bool-cases (is_for a.achievement_id b)) [
  | inl same ↦
      let part : chain_part b ≡ chain_part a = ground (arith, h) in
      let kept : chain_part (record a { id = some (get_or b.id (get_or a.id id)) }) ≡ chain_part a =
        ap chain_part (stored_again id i a b e part) in
      let ids : b.achievement_id ≡ a.achievement_id =
        ap (λ (p : ChainPart). p.achievement_id) part in
      rw same (
        more (record { part = kept ∙ sym part; gone = λ x. st; same = λ x. absurd cc })
          (unmarked a.achievement_id awards
            (subst (λ n. All (λ x. is_for n x ≡ false) awards) ids d.0)))
  | inr differ ↦ rw differ (
      more (record { part = refl; gone = λ x. absurd cc; same = λ x. refl })
        (put_award-Marked id i a awards st e d.1 (ground (arith, h))))
]

keep-none :
    (n : ℕ) (xs : List Award)
    → find (is_for n) xs ≡ none
    → keep (has_status pending) xs ≡ keep (λ a. not (is_for n a)) (keep (has_status pending) xs)
unfolding keep find status_eq
keep-none n [] h = refl
keep-none n (a ∷ xs) h = ground (arith, keep-none n xs)

update-Marked :
    (a : Award) (s : Store)
    → a.status ≡ deleted
    → (a.achievement_id == warning_achievement_id) ≡ false
    → IsQueue s.pending_awards
    → InChain a (parts s)
    → Marked a.achievement_id s.pending_awards (update_pending_award a s).pending_awards
unfolding update_pending_award upsert_pending_award
update-Marked a s st genuine q h = rw genuine (
    put_award-Marked (next_json_id (map award_id s.pending_awards)) h.id.0 a s.pending_awards st
      h.id.1 q.distinct h.found)

-- On a well-formed queue, deleting an award in the menu takes it off the awards that the menu lists,
-- and leaves the others as they are and in their order.
pub waiting_awards-mark_deleted :
    (achievement : ℕ) (s : Store)
    → IsQueue s.pending_awards
    → waiting_awards (mark_deleted achievement s)
      ≡ keep (λ a. not (is_for achievement a)) (waiting_awards s)
unfolding waiting_awards mark_deleted get_pending_awards
waiting_awards-mark_deleted achievement s q =
    elim (Option-cases (find (is_for achievement) (get_pending_awards s))) [
      | inl none_there ↦
          rw (none_there, mark_deleted) (keep-none achievement (get_pending_awards s) none_there)
      | inr (a, found) ↦
          let there : InChain a (parts s) =
            All-find _ _ (get_pending_awards s) a (queue-InChain s q) found in
          let genuine : (a.achievement_id == warning_achievement_id) ≡ false =
            All-find (λ (b : Award). (b.achievement_id == warning_achievement_id) ≡ false) _
              (get_pending_awards s) a (sort-All award_le _ s.pending_awards q.genuine) found in
          let marked : Award = record a { status = deleted } in
          let its : a.achievement_id ≡ achievement =
            ground (arith, find_sound (is_for achievement) (get_pending_awards s) a found) in
          let change =
            waiting-Marked a.achievement_id (sort award_le s.pending_awards)
              (sort award_le (update_pending_award marked s).pending_awards)
              (sort-Marked a.achievement_id s.pending_awards
                (update_pending_award marked s).pending_awards
                (update-Marked marked s refl genuine q
                  (record { id = there.id; found = there.found }))) in
          rw (found, mark_deleted)
            (subst
              (λ n.
                keep (has_status pending)
                  (sort award_le (update_pending_award marked s).pending_awards)
                ≡ keep (λ b. not (is_for n b))
                    (keep (has_status pending) (sort award_le s.pending_awards)))
              its change)
    ]
