-- ===== src/Storage/AwardLaws.antt =====
-- The pending awards of linux/raofflineproxy/storage.py: one award for an achievement, in the order
-- of their queueing.
use raoffline_proxy.Prelude.{
  ◌⊎◌, inl, inr, ltb, Bool-cases, ℕ, ◌+◌, ◌≤◌, ◌<◌, ◌≡◌, ◌≢◌, refl, Bool, true, false, none, some,
  List, [], ◌∷◌, ◌++◌, map, arith, ◌==◌, All, Distinct, any, get_or,
}
use mathlib.Core.List.{Perm}
use raoffline_proxy.Prelude.Sorted.{sort, IsSorted, sort-IsSorted, sort-perm, sort-snoc, IsTotal}
use raoffline_proxy.Storage.{Award, Store, max_id, next_json_id}
use raoffline_proxy.Storage.Awards.{
  award_id, award_le, get_pending_awards, is_for, pending_award_exists, put_award,
  upsert_pending_award, warning_achievement_id,
}

award_le-total : IsTotal award_le
unfolding award_le
award_le-total x y h = ground arith

-- Queued earlier, or at the same time with an id that is no greater.
abbrev pub Precedes : Award → Award → Type 0
Precedes a b =
    (a.queued_at < b.queued_at) ⊎ ((a.queued_at ≡ b.queued_at) × (get_or a.id 0 ≤ get_or b.id 0))

-- Each award precedes the next one.
abbrev pub InOrder : List Award → Type 0
InOrder [] = Unit
InOrder (a ∷ []) = Unit
InOrder (a ∷ b ∷ awards) = Precedes a b × InOrder (b ∷ awards)

le-Precedes : (a b : Award) → award_le a b ≡ true → Precedes a b
unfolding award_le
le-Precedes a b h = elim (Bool-cases (ltb a.queued_at b.queued_at)) [
  | inl earlier ↦ inl (ground arith)
  | inr later ↦ inr (ground arith, ground arith)
]

sorted-InOrder : (awards : List Award) → IsSorted award_le awards → InOrder awards
sorted-InOrder [] h = tt
sorted-InOrder (a ∷ []) h = tt
sorted-InOrder (a ∷ b ∷ awards) h = (le-Precedes a b h.0, sorted-InOrder (b ∷ awards) h.1)

-- The awards come out in the order of the time of queueing, those of one time in the order of their
-- ids, and every award once.
pub get_pending_awards_lem :
    (s : Store) → InOrder (get_pending_awards s) × Perm (get_pending_awards s) s.pending_awards
unfolding get_pending_awards
get_pending_awards_lem s = (
  sorted-InOrder (sort award_le s.pending_awards)
      (sort-IsSorted award_le award_le-total s.pending_awards),
  sort-perm award_le s.pending_awards,
)

abbrev pub same_achievement : Award → Award → Bool
same_achievement a b = is_for a.achievement_id b

-- The stored awards: each has an id, no two are for the same achievement, none is for the synthetic
-- warning.
pub record IsQueue (awards : List Award) : Type 0 where
  pub distinct : Distinct same_achievement awards
  pub ids : All (λ a. (n : ℕ) × (a.id ≡ some n)) awards
  pub genuine : All (λ a. (a.achievement_id == warning_achievement_id) ≡ false) awards

-- Every award's id is below the bound.
abbrev pub IdsBelow : ℕ → List Award → Type 0
IdsBelow n awards = All (λ a. award_id a < n) awards

IdsBelow-le : {m n : ℕ} (awards : List Award) → m ≤ n → IdsBelow m awards → IdsBelow n awards
IdsBelow-le [] h f = tt
IdsBelow-le (a ∷ awards) h f = (omega arith, IdsBelow-le awards h f.1)

max_id-IdsBelow : (awards : List Award) → IdsBelow (max_id (map award_id awards) + 1) awards
unfolding max_id
max_id-IdsBelow [] = tt
max_id-IdsBelow (a ∷ awards) =
    (omega arith, IdsBelow-le awards (omega arith) (max_id-IdsBelow awards))

pub next_json_id-IdsBelow :
    (awards : List Award) → IdsBelow (next_json_id (map award_id awards)) awards
unfolding next_json_id
next_json_id-IdsBelow [] = tt
next_json_id-IdsBelow (a ∷ awards) = max_id-IdsBelow (a ∷ awards)

-- A new achievement is appended.
pub put_award_new :
    (id : ℕ) (a : Award) (awards : List Award)
    → any (is_for a.achievement_id) awards ≡ false
    → put_award id a awards ≡ awards ++ record a { id = some (get_or a.id id) } ∷ []
unfolding put_award any
put_award_new id a [] h = refl
put_award_new id a (b ∷ awards) h = ground (arith, put_award_new id a awards)

-- The award as it is stored when its achievement is new.
abbrev pub stored_new : Store → Award → Award
stored_new s a = record a { id = some (get_or a.id (next_json_id (map award_id s.pending_awards))) }

pub upsert_new :
    (s : Store) (a : Award)
    → a.achievement_id ≢ warning_achievement_id
    → pending_award_exists s a.achievement_id ≡ false
    → (upsert_pending_award a s).pending_awards ≡ s.pending_awards ++ stored_new s a ∷ []
unfolding pending_award_exists upsert_pending_award
upsert_new s a w e =
    ground (arith, put_award_new (next_json_id (map award_id s.pending_awards)) a s.pending_awards)

award_le-newest :
    (n t : ℕ) (a : Award) (awards : List Award)
    → a.id ≡ some n
    → a.queued_at ≡ t
    → IdsBelow n awards
    → All (λ b. b.queued_at ≤ t) awards
    → All (λ b. award_le b a ≡ true) awards
award_le-newest n t a [] i q f h = tt
award_le-newest n t a (b ∷ awards) i q f h =
    ((unfold award_le in ground arith), award_le-newest n t a awards i q f.1 h.1)

-- Where all awards were queued no later, a new award comes out last.
pub get-upsert_new :
    (s : Store) (a : Award)
    → a.id ≡ none
    → a.achievement_id ≢ warning_achievement_id
    → pending_award_exists s a.achievement_id ≡ false
    → All (λ b. b.queued_at ≤ a.queued_at) s.pending_awards
    → get_pending_awards (upsert_pending_award a s) ≡ get_pending_awards s ++ stored_new s a ∷ []
unfolding get_pending_awards
get-upsert_new s a i w e q =
    let n = next_json_id (map award_id s.pending_awards) in
    let id : (stored_new s a).id ≡ some n = ground arith in
    rw (upsert_new s a w e) (
      sort-snoc award_le s.pending_awards (stored_new s a) (
        award_le-newest n a.queued_at (stored_new s a) s.pending_awards id refl
          (next_json_id-IdsBelow s.pending_awards) q))
