-- ===== src/Proxy/Requests/Listed.antt =====
-- Which achievements the cached unlocks and the cached session of a game list, as the offline answers of
-- linux/raofflineproxy/proxy_service.py read them.
use raoffline_proxy.Prelude.{
  ℕ, ◌≡◌, refl, ap, ◌∙◌, false, Bool, ◌&&◌, ◌||◌, not, Option, none, some, List, [], codes, arith,
  ltb, any, ◌==◌, Option-cases, Bool-cases, inl, inr,
}
use raoffline_proxy.Json.{
  Json, Items, Fields, bool, num, str, arr, obj, null, real, nil, cons, field_of, as_int,
}
use raoffline_proxy.Storage.Awards.{warning_achievement_id}
use raoffline_proxy.RomCache.Unlocks.{member, cached_unlock_ids, unlock_ids_of_items}
use raoffline_proxy.Proxy.Requests.Offline.{id_of, session_ids, cached_session_ids}

-- An achievement, and not the synthetic warning.
abbrev pub is_achievement : ℕ → Bool
is_achievement n = ltb 0 n && not (n == warning_achievement_id)

-- The numbers in the list have the id among them.
pub has_number : ℕ → Items → Bool
unfolding as_int
has_number n nil = false
has_number n (cons v vs) =
    let rest = has_number n vs in elim (as_int v) [ none ↦ rest | some m ↦ (m == n) || rest ]

-- The dicts in the list have one with the ID.
pub has_item : ℕ → Items → Bool
unfolding id_of
has_item n nil = false
has_item n (cons (obj item) vs) =
    let rest = has_item n vs in elim (id_of item) [ none ↦ rest | some m ↦ (m == n) || rest ]
has_item n (cons _ vs) = has_item n vs

-- The list under `UserUnlocks`, where it is one.
abbrev pub lists_number : ℕ → Option Json → Bool
lists_number n (some (arr ids)) = has_number n ids
lists_number n _ = false

-- The list under `Unlocks`.
abbrev pub lists_item : ℕ → Option Json → Bool
lists_item n (some (arr items)) = has_item n items
lists_item n _ = false

member-numbers :
    (n : ℕ) (items : Items)
    → member n (unlock_ids_of_items items) ≡ (is_achievement n && has_number n items)
unfolding unlock_ids_of_items has_number any
member-numbers n nil = ground arith
member-numbers n (cons v vs) = elim (Option-cases (as_int v)) [
  | inl none_there ↦ ground (arith, member-numbers n vs)
  | inr (m, number) ↦ elim (Bool-cases (m == n)) [
    | inl same ↦ let e : m ≡ n = ground arith in ground (arith, member-numbers n vs)
    | inr differ ↦ ground (arith, member-numbers n vs)
  ]
]

member-items :
    (n : ℕ) (items : Items) (ids : List ℕ)
    → session_ids items ≡ some ids
    → member n ids ≡ (is_achievement n && has_item n items)
unfolding session_ids has_item any
member-items n nil ids h = ground (arith, h)
member-items n (cons (obj item) vs) ids h = elim (Option-cases (id_of item)) [
  | inl bad ↦ absurd (ground arith)
  | inr (m, number) ↦ elim (Option-cases (session_ids vs)) [
    | inl broken ↦ absurd (ground arith)
    | inr (ns, read) ↦
        let later = member-items n vs ns read in
        elim (Bool-cases (m == n)) [
          | inl same ↦ let e : m ≡ n = ground arith in ground (arith, later)
          | inr differ ↦ ground (arith, later)
        ]
  ]
]
member-items n (cons null vs) ids h = member-items n vs ids h
member-items n (cons (bool b) vs) ids h = member-items n vs ids h
member-items n (cons (num b) vs) ids h = member-items n vs ids h
member-items n (cons (real b) vs) ids h = member-items n vs ids h
member-items n (cons (str b) vs) ids h = member-items n vs ids h
member-items n (cons (arr b) vs) ids h = member-items n vs ids h

nothing_listed : (n : ℕ) → member n [] ≡ (is_achievement n && false)
unfolding any
nothing_listed n = ground arith

-- The IDs that are read of a cached session.
pub member-session :
    (n : ℕ) (payload : Fields) (ids : List ℕ)
    → cached_session_ids payload ≡ some ids
    → member n ids ≡ (is_achievement n && lists_item n (field_of (codes "Unlocks") payload))
unfolding cached_session_ids any
member-session n payload ids h = elim (Option-cases (field_of (codes "Unlocks") payload)) [
  | inl missing ↦ ground (arith, missing)
  | inr (arr entries, there) ↦ rw there (member-items n entries ids (ground (arith, there)))
  | inr (obj fs, there) ↦ ground (arith, there)
  | inr (str s, there) ↦ ground (arith, there)
  | inr (null, there) ↦ absurd (ground (arith, there))
  | inr (bool b, there) ↦ absurd (ground (arith, there))
  | inr (num b, there) ↦ absurd (ground (arith, there))
  | inr (real b, there) ↦ absurd (ground (arith, there))
]

number_ids : Option Json → List ℕ
unfolding unlock_ids_of_items
number_ids (some (arr ids)) = unlock_ids_of_items ids
number_ids _ = []

cached-number_ids :
    (n : ℕ) (payload : Fields)
    → cached_unlock_ids (some (obj payload)) ≡ number_ids (field_of (codes "UserUnlocks") payload)
unfolding cached_unlock_ids number_ids
cached-number_ids n payload = refl

member-number_ids :
    (n : ℕ) (o : Option Json) → member n (number_ids o) ≡ (is_achievement n && lists_number n o)
unfolding number_ids
member-number_ids n none = nothing_listed n
member-number_ids n (some (arr ids)) = member-numbers n ids
member-number_ids n (some (obj fs)) = nothing_listed n
member-number_ids n (some (str s)) = nothing_listed n
member-number_ids n (some null) = nothing_listed n
member-number_ids n (some (bool b)) = nothing_listed n
member-number_ids n (some (num b)) = nothing_listed n
member-number_ids n (some (real b)) = nothing_listed n

-- The ids that are read of the cached unlocks.
pub member-cached :
    (n : ℕ) (payload : Fields)
    → member n (cached_unlock_ids (some (obj payload)))
      ≡ (is_achievement n && lists_number n (field_of (codes "UserUnlocks") payload))
member-cached n payload =
    ap (member n) (cached-number_ids n payload)
    ∙ member-number_ids n (field_of (codes "UserUnlocks") payload)
