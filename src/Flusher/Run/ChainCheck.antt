-- ===== src/Flusher/Run/ChainCheck.antt =====
-- The chain check at the start of `flush_pending_awards` of linux/raofflineproxy/flusher.py.
use raoffline_proxy.Prelude.{
  ℕ, ◌≡◌, refl, ap, sym, ◌∙◌, subst, true, false, some, List, [], ◌∷◌, map, Text, arith, All,
  All-both, All-map, Distinct, inl, inr, ◌==◌, any, All-of_map, All-to_map, Option-cases,
}
use raoffline_proxy.Prelude.Sorted.{sort, sort-All, sort-Distinct}
use raoffline_proxy.Storage.{Award, Store}
use raoffline_proxy.Storage.Awards.{award_le, get_pending_awards, warning_achievement_id}
use raoffline_proxy.Storage.AwardLaws.{same_achievement, IsQueue}
use raoffline_proxy.AwardSigning.{Crypto}
use raoffline_proxy.Flusher.Chain.{
  link_broken, payload_mismatch, invalid_signature, Verdict, valid, invalid, verify_chain,
  repair_pending_chain,
}
use raoffline_proxy.Flusher.Repair.{Content, content, repair-verifies}
use raoffline_proxy.Flusher.Run.{update_all, Checked, proceed, give_up, check_chain}
use raoffline_proxy.Flusher.Run.Repaired.{
  rank, ranks, same_rank, Fits, replace_all-lem, replace_all-same,
}

abbrev Placed : List Award → Award → Type 0
Placed xs x =
    All (λ l. same_rank (rank x) l ≡ true → l ≡ rank x) (map rank xs)
    × (any (same_rank (rank x)) (map rank xs) ≡ true)

Placed-cons :
    (x y : Award) (xs : List Award) → same_achievement x y ≡ false → Placed xs y → Placed (x ∷ xs) y
unfolding any
Placed-cons x y xs apart (alike, there) =
    (((λ same. absurd (ground (arith, apart, same))), alike), ground (arith, there))

-- Every award of a queue has a place in it.
Placed-self : (xs : List Award) → Distinct same_achievement xs → All (Placed xs) xs
unfolding any
Placed-self [] d = tt
Placed-self (x ∷ xs) d =
    let apart =
      All-of_map rank (λ l. same_rank (rank x) l ≡ true → l ≡ rank x) xs
        (All-map _ _ (λ y differ same. absurd (cc (differ, same))) xs d.0) in
    (
      (((λ same. refl), apart), ground arith),
      All-both (λ y. same_achievement x y ≡ false) (Placed xs) (Placed (x ∷ xs)) xs
          (λ y differ placed. Placed-cons x y xs differ placed) d.0 (Placed-self xs d.1),
    )

queue-Fits :
    (s : Store)
    → IsQueue s.pending_awards
    → All (λ k. Fits k (ranks s)) (map rank (get_pending_awards s))
unfolding get_pending_awards
queue-Fits s q =
    let xs = s.pending_awards in
    let stored : All (λ a. Fits (rank a) (ranks s)) xs =
      All-both _ _ _ xs
        (λ a placed known. record {
          genuine = known.1;
          id = known.0;
          present = placed.1;
          alike = placed.0;
        })
        (Placed-self xs q.distinct)
        (All-both _ _
          (λ a.
            ((n : ℕ) × (a.id ≡ some n)) × ((a.achievement_id == warning_achievement_id) ≡ false))
          xs (λ a id genuine. (id, genuine)) q.ids q.genuine) in
    All-of_map rank _ (sort award_le xs) (sort-All award_le _ xs stored)

Distinct-ranks : (xs : List Award) → Distinct same_achievement xs → Distinct same_rank (map rank xs)
Distinct-ranks [] d = tt
Distinct-ranks (x ∷ xs) d = (All-of_map rank _ xs d.0, Distinct-ranks xs d.1)

content-rank : (xs ys : List Award) → map content xs ≡ map content ys → map rank xs ≡ map rank ys
unfolding content
content-rank [] [] h = refl
content-rank [] (y ∷ ys) h = absurd cc
content-rank (x ∷ xs) [] h = absurd cc
content-rank (x ∷ xs) (y ∷ ys) h =
    let e : content x ≡ content y = ground (arith, h) in
    let rest : map content xs ≡ map content ys = ground (arith, h) in
    let head : rank x ≡ rank y =
      ap
        (λ (k : Content). record {
          id = k.id;
          achievement_id = k.achievement_id;
          queued_at = k.queued_at;
        })
        e in
    rw (head, content-rank xs ys rest) refl

-- The repaired awards, written one by one, are what the store then holds.
pub update_all-repaired :
    (s : Store) (r : List Award)
    → IsQueue s.pending_awards
    → map content r ≡ map content (get_pending_awards s)
    → get_pending_awards (update_all r s) ≡ r
update_all-repaired s r q h =
    let same = content-rank r (get_pending_awards s) h in
    let turn : (x y : Award) → same_achievement x y ≡ false → same_achievement y x ≡ false =
      λ x y e. ground (arith, e) in
    let apart : Distinct same_rank (map rank (get_pending_awards s)) =
      unfold get_pending_awards in
      Distinct-ranks _ (sort-Distinct award_le same_achievement turn s.pending_awards q.distinct) in
    replace_all-lem r s (Distinct-ranks s.pending_awards q.distinct)
      (All-to_map rank _ r (subst (All (λ k. Fits k (ranks s))) (sym same) (queue-Fits s q)))
    ∙ replace_all-same r (get_pending_awards s) (subst (Distinct same_rank) (sym same) apart) same

module _ (c : Crypto) (secret : Text) where
  -- Where the run goes on, with awards whose chain is valid, it holds the store's own awards, unchanged
  -- but for the links; where it gives up, the store is untouched and the chain is at fault.
  abbrev pub IsChecked : Store → Store × Checked → Type 0
  IsChecked s (s', proceed found) =
      (verify_chain c secret found ≡ valid)
      × (get_pending_awards s' ≡ found)
      × (map content found ≡ map content (get_pending_awards s))
  IsChecked s (s', give_up index reason) =
      (s' ≡ s) × (verify_chain c secret (get_pending_awards s) ≡ invalid reason index)

  repair-IsChecked :
      (now : ℕ → ℕ) (s : Store) (index : ℕ)
      → IsQueue s.pending_awards
      → verify_chain c secret (get_pending_awards s) ≡ invalid link_broken index
      → IsChecked s (check_chain c secret now (get_pending_awards s) s)
  unfolding check_chain
  repair-IsChecked now s index q v =
      let awards = get_pending_awards s in
      elim (Option-cases (repair_pending_chain c secret now awards)) [
        | inl stop ↦
            let e : check_chain c secret now awards s ≡ (s, give_up index link_broken) =
              rw (v, stop, check_chain) refl in
            subst (IsChecked s) (sym e) (refl, v)
        | inr (r, done) ↦
            let (intact, fine, same) = repair-verifies c secret now awards r done in
            let held = update_all-repaired s r q same in
            let e : check_chain c secret now awards s
                ≡ (update_all r s, proceed (get_pending_awards (update_all r s))) =
              rw (v, done, fine, check_chain) refl in
            subst (IsChecked s) (sym e) (rw held fine, refl, rw held same)
      ]

  verdict-IsChecked :
      (now : ℕ → ℕ) (s : Store) (verdict : Verdict)
      → IsQueue s.pending_awards
      → verify_chain c secret (get_pending_awards s) ≡ verdict
      → IsChecked s (check_chain c secret now (get_pending_awards s) s)
  unfolding check_chain
  verdict-IsChecked now s valid q v =
      let e : check_chain c secret now (get_pending_awards s) s
          ≡ (s, proceed (get_pending_awards s)) =
        rw (v, check_chain) refl in
      subst (IsChecked s) (sym e) (v, refl, refl)
  verdict-IsChecked now s (invalid link_broken index) q v = repair-IsChecked now s index q v
  verdict-IsChecked now s (invalid payload_mismatch index) q v =
      let e : check_chain c secret now (get_pending_awards s) s
          ≡ (s, give_up index payload_mismatch) =
        rw (v, check_chain) refl in
      subst (IsChecked s) (sym e) (refl, v)
  verdict-IsChecked now s (invalid invalid_signature index) q v =
      let e : check_chain c secret now (get_pending_awards s) s
          ≡ (s, give_up index invalid_signature) =
        rw (v, check_chain) refl in
      subst (IsChecked s) (sym e) (refl, v)

  -- On a well-formed queue, the chain check goes on only with a valid chain that is what the store then
  -- holds, of the same awards in the same order with only their links signed anew; and it gives up
  -- only without a write and with the verdict of the verification.
  pub check_chain_lem :
      (now : ℕ → ℕ) (s : Store)
      → IsQueue s.pending_awards
      → IsChecked s (check_chain c secret now (get_pending_awards s) s)
  check_chain_lem now s q =
      verdict-IsChecked now s (verify_chain c secret (get_pending_awards s)) q refl
