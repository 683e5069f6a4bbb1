-- ===== src/Storage/Migration.antt =====
-- Keys that older versions wrote with the user's own spelling: `migrate_user_case_in_cache_keys` of
-- linux/raofflineproxy/storage.py.
use raoffline_proxy.Prelude.{
  ◌≡◌, refl, ◌∙◌, Bool, true, false, Option, none, some, List, [], ◌∷◌, ◌++◌, Text, arith, is_empty,
  drop_prefix, text_eq, text_eq_iff, text_eq_refl, if◌then◌else◌, ◌==◌, find, Bool-cases,
  Option-cases, inl, inr,
}
use raoffline_proxy.CacheKeys.{Prefix, prefix_text, lower, before_colon}
use raoffline_proxy.Storage.{Entry, Store}
use raoffline_proxy.Storage.Cache.{
  has_key, get_cache, delete_cache, rename_entry, rename_cache_key, cache_keys_by_prefix,
}
use raoffline_proxy.Storage.CacheLaws.{get_cache-delete}

-- `rest.rfind(":")`, as the parts before and after it; none if there is no colon.
unfoldable pub split_last : Text → Option (Text × Text)
split_last [] = none
split_last (c ∷ s) = elim (split_last s) [
  | some (a, b) ↦ some (c ∷ a, b)
  | none ↦ if c == 58 then some ([], s) else none
]

-- The parts before and after the first colon.
unfoldable pub split_first : Text → Option (Text × Text)
split_first [] = none
split_first (c ∷ s) =
    let later = split_first s in
    if c == 58 then some ([], s) else elim later [ none ↦ none | some (a, b) ↦ some (c ∷ a, b) ]

-- From the first colon on, which is `":" + ":".join(parts[2:])`, or nothing.
unfoldable pub from_colon : Text → Text
from_colon [] = []
from_colon (c ∷ s) = let rest = from_colon s in if c == 58 then c ∷ s else rest

unfoldable pub lowercased_scoped : Text → Text → Option Text
unfolding split_last lower is_empty
lowercased_scoped prefix rest = elim (split_last rest) [
  | none ↦ none
  | some (scope, user) ↦
      if is_empty scope
      then none
      else if is_empty user
      then none
      else some (prefix ++ (scope ++ 58 ∷ lower user))
]

unfoldable pub lowercased_game : Text → Text → Option Text
unfolding split_first from_colon before_colon lower is_empty
lowercased_game prefix rest = elim (split_first rest) [
  | none ↦ none
  | some (game, after) ↦
      let user = before_colon after in
      if is_empty game
      then none
      else if is_empty user
      then none
      else some (prefix ++ (game ++ 58 ∷ (lower user ++ from_colon after)))
]

abbrev is_scoped : Prefix → Bool
is_scoped Prefix.achievementsets = true
is_scoped _ = false

-- `_lowercased_user_key` of a key with the prefix
unfoldable pub lowercased_user_key : Text → Prefix → Option Text
unfolding lowercased_scoped lowercased_game drop_prefix prefix_text
lowercased_user_key key prefix =
    let rest = drop_prefix key (prefix_text prefix) in
    if is_scoped prefix
    then lowercased_scoped (prefix_text prefix) rest
    else lowercased_game (prefix_text prefix) rest

-- One key: the entry of the new key stays, if there is one.
unfoldable pub move_key : Text → Text → Store → Store
unfolding delete_cache rename_cache_key
move_key old new s =
    let gone = delete_cache old s in
    let renamed = rename_cache_key old new s in
    if text_eq new old then s else elim (get_cache s new) [ some e ↦ gone | none ↦ renamed ]

unfoldable pub migrate_keys : Prefix → List Text → Store → Store
unfolding lowercased_user_key move_key
migrate_keys prefix [] s = s
migrate_keys prefix (old ∷ later) s =
    migrate_keys prefix later
      (elim (lowercased_user_key old prefix) [ none ↦ s | some new ↦ move_key old new s ])

unfoldable pub migrate_prefixes : List Prefix → Store → Store
unfolding migrate_keys cache_keys_by_prefix prefix_text
migrate_prefixes [] s = s
migrate_prefixes (prefix ∷ later) s =
    migrate_prefixes later (migrate_keys prefix (cache_keys_by_prefix s (prefix_text prefix)) s)

unfoldable pub migrate_user_case_in_cache_keys : Store → Store
unfolding migrate_prefixes
migrate_user_case_in_cache_keys s =
    migrate_prefixes
      (Prefix.patch ∷ Prefix.achievementsets ∷ Prefix.unlocks ∷ Prefix.startsession ∷ []) s

find-rename :
    (old new : Text) (es : List Entry)
    → find (has_key new) es ≡ none
    → find (has_key new) (rename_entry old new es)
      ≡ elim (find (has_key old) es) [ none ↦ none | some e ↦ some (record e { cache_key = new }) ]
unfolding find rename_entry
find-rename old new [] h = refl
find-rename old new (e ∷ es) h = elim (Bool-cases (has_key old e)) [
  | inl here ↦ rw (here, text_eq_refl new) refl
  | inr there ↦
      let apart : has_key new e ≡ false = ground arith in
      let rest : find (has_key new) es ≡ none = ground arith in
      rw (there, apart) (find-rename old new es rest)
]

-- What a moved key answers: the response that was there, or else the one of the old key, as it was.
pub get_cache-move_key :
    (old new : Text) (s : Store)
    → text_eq new old ≡ false
    → get_cache (move_key old new s) new ≡ elim (get_cache s new) [
      | some e ↦ some e
      | none ↦ elim (get_cache s old) [ none ↦ none | some e ↦ some (record e { cache_key = new }) ]
    ]
unfolding move_key
get_cache-move_key old new s d = elim (Option-cases (get_cache s new)) [
  | inr (e, there) ↦
      let apart : text_eq old new ≡ false =
        ground (arith, text_eq_iff old new, text_eq_iff new old) in
      let kept : get_cache (delete_cache old s) new ≡ get_cache s new =
        get_cache-delete s old new ∙ rw apart refl in
      rw (d, there, move_key) (kept ∙ there)
  | inl free ↦
      let moved : get_cache (rename_cache_key old new s) new
          ≡ elim (get_cache s old) [ none ↦ none | some e ↦ some (record e { cache_key = new }) ] =
        unfold get_cache rename_cache_key in find-rename old new s.api_cache free in
      rw (d, free, move_key) moved
]
