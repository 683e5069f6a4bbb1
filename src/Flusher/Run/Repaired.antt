-- ===== src/Flusher/Run/Repaired.antt =====
-- What the chain check of `flush_pending_awards` in linux/raofflineproxy/flusher.py writes.
use raoffline_proxy.Prelude.{
  ℕ, ◌≡◌, refl, ap, sym, ◌∙◌, subst, Bool, true, false, Option, none, some, List, [], ◌∷◌, map,
  arith, All, All-of_map, All-to_map, Distinct, Bool-cases, inl, inr, if◌then◌else◌, ◌==◌, get_or,
  any,
}
use raoffline_proxy.Prelude.Sorted.{sort, insert, sort-All}
use raoffline_proxy.Storage.{Award, Status, Store, next_json_id}
use raoffline_proxy.Storage.Awards.{
  award_id, award_le, get_pending_awards, is_for, put_award, update_pending_award,
  upsert_pending_award, warning_achievement_id,
}
use raoffline_proxy.Flusher.Run.{update_all}

-- What the place of an award in the queue depends on.
pub record Rank : Type 0 where
  pub id : Option ℕ
  pub achievement_id : ℕ
  pub queued_at : ℕ

abbrev pub rank : Award → Rank
rank a = record { id = a.id; achievement_id = a.achievement_id; queued_at = a.queued_at }

abbrev pub ranks : Store → List Rank
ranks s = map rank s.pending_awards

abbrev pub same_rank : Rank → Rank → Bool
same_rank k l = l.achievement_id == k.achievement_id

-- An award of this rank takes the place of one of the ranks.
pub record Fits (k : Rank) (ks : List Rank) : Type 0 where
  pub genuine : (k.achievement_id == warning_achievement_id) ≡ false
  pub id : (n : ℕ) × (k.id ≡ some n)
  pub present : any (same_rank k) ks ≡ true
  pub alike : All (λ l. same_rank k l ≡ true → l ≡ k) ks

abbrev pub replace : Award → Award → Award
replace a b = if is_for a.achievement_id b then a else b

replace-apart :
    (a : Award) (xs : List Award)
    → All (λ l. same_rank (rank a) l ≡ false) (map rank xs)
    → map (replace a) xs ≡ xs
replace-apart a [] h = refl
replace-apart a (b ∷ xs) h = rw (h.0, replace-apart a xs h.1) refl

put_award-replace :
    (i : ℕ) (a : Award) (xs : List Award)
    → (n : ℕ) × (a.id ≡ some n)
    → Distinct same_rank (map rank xs)
    → any (same_rank (rank a)) (map rank xs) ≡ true
    → All (λ l. same_rank (rank a) l ≡ true → l ≡ rank a) (map rank xs)
    → put_award i a xs ≡ map (replace a) xs
unfolding put_award any
put_award-replace i a [] id d m alike = absurd cc
put_award-replace i a (b ∷ xs) id d m alike = elim (Bool-cases (is_for a.achievement_id b)) [
  | inl same ↦
      let e : rank b ≡ rank a = alike.0 same in
      let ei : b.id ≡ some id.0 = ap (λ (k : Rank). k.id) e ∙ id.1 in
      let kept : record a { id = some (get_or b.id (get_or a.id i)) } ≡ a =
        rw ei (ap (λ x. record a { id = x }) (sym id.1)) in
      rw
        (
          same,
          kept,
          replace-apart a xs
              (subst (λ (k : Rank). All (λ l. same_rank k l ≡ false) (map rank xs)) e d.0),
        )
        refl
  | inr differ ↦
      rw differ (ap (◌∷◌ b) (put_award-replace i a xs id d.1 (ground (arith, m)) alike.1))
]

replace-rank :
    (a : Award) (xs : List Award)
    → All (λ l. same_rank (rank a) l ≡ true → l ≡ rank a) (map rank xs)
    → map rank (map (replace a) xs) ≡ map rank xs
replace-rank a [] h = refl
replace-rank a (b ∷ xs) h = elim (Bool-cases (is_for a.achievement_id b)) [
  | inl same ↦ rw (same, h.0 same, replace-rank a xs h.1) refl
  | inr differ ↦ rw (differ, replace-rank a xs h.1) refl
]

rank-replace :
    (a b : Award)
    → (same_rank (rank a) (rank b) ≡ true → rank b ≡ rank a)
    → rank (replace a b) ≡ rank b
rank-replace a b h = elim (Bool-cases (is_for a.achievement_id b)) [
  | inl same ↦ rw same (sym (h same))
  | inr differ ↦ rw differ refl
]

abbrev with_rank : Rank → Award
with_rank k = record {
  id = k.id;
  achievement_id = k.achievement_id;
  query_string = [];
  request_body = [];
  user_agent = [];
  queued_at = k.queued_at;
  retry_count = 0;
  last_error = none;
  status = Status.pending;
  payload_hash = [];
  prev_hash = [];
  signature = [];
  signed_at = 0;
}

award_le-rank :
    (x x' y y' : Award) → rank x' ≡ rank x → rank y' ≡ rank y → award_le x' y' ≡ award_le x y
unfolding award_le
award_le-rank x x' y y' e f = λ i. award_le (with_rank (e i)) (with_rank (f i))

insert-replace :
    (a x : Award) (xs : List Award)
    → All (λ l. same_rank (rank a) l ≡ true → l ≡ rank a) (map rank (x ∷ xs))
    → map (replace a) (insert award_le x xs) ≡ insert award_le (replace a x) (map (replace a) xs)
unfolding insert award_le
insert-replace a x [] h = refl
insert-replace a x (y ∷ xs) h =
    let order =
      award_le-rank x (replace a x) y (replace a y) (rank-replace a x h.0)
        (rank-replace a y h.1.0) in
    elim (Bool-cases (award_le x y)) [
      | inl before ↦ rw (order, before) refl
      | inr after ↦ rw (order, after, insert-replace a x xs (h.0, h.1.1)) refl
    ]

sort-replace :
    (a : Award) (xs : List Award)
    → All (λ l. same_rank (rank a) l ≡ true → l ≡ rank a) (map rank xs)
    → map (replace a) (sort award_le xs) ≡ sort award_le (map (replace a) xs)
unfolding sort
sort-replace a [] h = refl
sort-replace a (x ∷ xs) h =
    let p : All (λ l. same_rank (rank a) l ≡ true → l ≡ rank a) (map rank (sort award_le xs)) =
      All-of_map rank _ (sort award_le xs) (sort-All award_le _ xs (All-to_map rank _ xs h.1)) in
    insert-replace a x (sort award_le xs) (h.0, p)
    ∙ ap (insert award_le (replace a x)) (sort-replace a xs h.1)

abbrev pub replace_all : List Award → List Award → List Award
replace_all [] xs = xs
replace_all (a ∷ r) xs = replace_all r (map (replace a) xs)

pub replace_all-lem :
    (r : List Award) (s : Store)
    → Distinct same_rank (ranks s)
    → All (λ a. Fits (rank a) (ranks s)) r
    → get_pending_awards (update_all r s) ≡ replace_all r (get_pending_awards s)
unfolding update_all get_pending_awards
replace_all-lem [] s d fits = refl
replace_all-lem (a ∷ r) s d fits =
    let f = fits.0 in
    let written : (update_pending_award a s).pending_awards ≡ map (replace a) s.pending_awards =
      unfold update_pending_award upsert_pending_award in
      rw f.genuine (
        put_award-replace (next_json_id (map award_id s.pending_awards)) a s.pending_awards f.id d
          f.present f.alike) in
    let same : ranks (update_pending_award a s) ≡ ranks s =
      ap (map rank) written ∙ replace-rank a s.pending_awards f.alike in
    let here : get_pending_awards (update_pending_award a s)
        ≡ map (replace a) (get_pending_awards s) =
      ap (sort award_le) written ∙ sym (sort-replace a s.pending_awards f.alike) in
    replace_all-lem r (update_pending_award a s) (subst (Distinct same_rank) (sym same) d)
      (subst (λ ks. All (λ b. Fits (rank b) ks) r) (sym same) fits.1)
    ∙ ap (replace_all r) here

-- The awards take the places of the awards with their ranks, one after the other.
replace_all-cons :
    (a : Award) (r xs : List Award)
    → All (λ b. same_rank (rank a) (rank b) ≡ false) r
    → replace_all r (a ∷ xs) ≡ a ∷ replace_all r xs
replace_all-cons a [] xs h = refl
replace_all-cons a (b ∷ r) xs h =
    let other : is_for b.achievement_id a ≡ false = ground (arith, h.0) in
    rw other (replace_all-cons a r (map (replace b) xs) h.1)

pub replace_all-same :
    (r xs : List Award)
    → Distinct same_rank (map rank r)
    → map rank r ≡ map rank xs
    → replace_all r xs ≡ r
replace_all-same [] [] d h = refl
replace_all-same [] (x ∷ xs) d h = absurd cc
replace_all-same (a ∷ r) [] d h = absurd cc
replace_all-same (a ∷ r) (x ∷ xs) d h =
    let e : rank a ≡ rank x = ground (arith, h) in
    let rest : map rank r ≡ map rank xs = ground (arith, h) in
    let mine : is_for a.achievement_id x ≡ true =
      ground (arith, ap (λ (k : Rank). k.achievement_id) e) in
    let alone : map (replace a) xs ≡ xs =
      replace-apart a xs (subst (All (λ l. same_rank (rank a) l ≡ false)) rest d.0) in
    rw (mine, alone)
      (replace_all-cons a r xs (All-to_map rank _ r d.0)
        ∙ ap (◌∷◌ a) (replace_all-same r xs d.1 rest))
