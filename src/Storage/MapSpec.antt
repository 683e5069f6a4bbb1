-- ===== src/Storage/MapSpec.antt =====
-- What the cache of linux/raofflineproxy/storage.py promises its callers: a map from keys to what was
-- written under them. The representation, a list of entries with ids, implements it.
use raoffline_proxy.Prelude.{
  ℕ, ◌≡◌, refl, ◌∙◌, ap, Bool, true, false, not, Option, none, some, List, [], ◌∷◌, Text, arith,
  text_eq, text_eq_iff, find, find-keep, find-keep-none, Bool-cases, Option-cases, inl, inr, leb,
  ◌||◌, if◌then◌else◌, starts_with,
}
use mathlib.Core.Path.{fun_ext}
use raoffline_proxy.Storage.{Entry, Store}
use raoffline_proxy.Storage.Cache.{
  has_key, key_starts_with, get_cache, upsert_cache, write_time, overwrite, delete_cache,
  delete_cache_by_prefix, clear_cache, is_cleared, evict_cache_older_than, is_exempt,
}
use raoffline_proxy.Storage.CacheLaws.{
  IsCache, written, get_cache-upsert, get_cache-delete, upsert-IsCache, keep-IsCache,
}
use raoffline_proxy.Storage.Eviction.{get_cache-evict, get_cache-clear}

-- What a reader of a key sees: all of the entry but its id.
pub record Contents : Type 0 where
  pub response_body : Text
  pub source_rom_path : Option Text
  pub cached_at : ℕ
  pub first_cached_at : ℕ

abbrev pub CacheMap : Type 0
CacheMap = Text → Option Contents

abbrev pub contents : Option Entry → Option Contents
contents none = none
contents (some e) = some (record {
  response_body = e.response_body;
  source_rom_path = e.source_rom_path;
  cached_at = e.cached_at;
  first_cached_at = e.first_cached_at;
})

abbrev pub view : Store → CacheMap
view s k = contents (get_cache s k)

-- The calls that change the cache, each with the clock that it reads.
pub data CacheOp : Type 0 where
  upsert : ℕ → Text → Text → Option ℕ → Option Text → CacheOp
  delete : Text → CacheOp
  delete_by_prefix : Text → CacheOp
  clear : CacheOp
  evict : ℕ → CacheOp

unfoldable pub apply : CacheOp → Store → Store
unfolding upsert_cache delete_cache delete_cache_by_prefix clear_cache evict_cache_older_than
apply (upsert clock key body cached_at source) s = upsert_cache clock key body cached_at source s
apply (delete key) s = delete_cache key s
apply (delete_by_prefix prefix) s = delete_cache_by_prefix prefix s
apply clear s = clear_cache s
apply (evict before) s = evict_cache_older_than before s

-- The same calls on a map. A second write keeps the first time, and the path if it names none.
abbrev pub rewritten : Option Contents → Text → Option Text → ℕ → Contents
rewritten none body source now = record {
  response_body = body;
  source_rom_path = source;
  cached_at = now;
  first_cached_at = now;
}
rewritten (some c) body source now = record c {
  response_body = body;
  source_rom_path = elim source [ none ↦ c.source_rom_path | some path ↦ some path ];
  cached_at = now;
}

abbrev pub only_if : (Contents → Bool) → Option Contents → Option Contents
only_if p none = none
only_if p (some c) = if p c then some c else none

unfoldable pub apply_spec : CacheOp → CacheMap → CacheMap
apply_spec (upsert clock key body cached_at source) m k =
    if text_eq key k then some (rewritten (m key) body source (write_time cached_at clock)) else m k
apply_spec (delete key) m k = if text_eq key k then none else m k
apply_spec (delete_by_prefix prefix) m k = if starts_with k prefix then none else m k
apply_spec clear m k = if is_cleared k then none else m k
apply_spec (evict before) m k = only_if (λ c. leb before c.cached_at || is_exempt k) (m k)

unfoldable pub run : List CacheOp → Store → Store
run [] s = s
run (op ∷ ops) s = run ops (apply op s)

unfoldable pub run_spec : List CacheOp → CacheMap → CacheMap
run_spec [] m = m
run_spec (op ∷ ops) m = run_spec ops (apply_spec op m)

get_cache-delete_by_prefix :
    (s : Store) (prefix k : Text)
    → get_cache (delete_cache_by_prefix prefix s) k
      ≡ (if starts_with k prefix then none else get_cache s k)
unfolding get_cache delete_cache_by_prefix
get_cache-delete_by_prefix s prefix k = elim (Bool-cases (starts_with k prefix)) [
  | inl gone ↦ rw gone (
      find-keep-none (has_key k) (λ e. not (key_starts_with prefix e)) s.api_cache
        λ e h. let same : e.cache_key ≡ k = (text_eq_iff e.cache_key k).0 h in rw (same, gone))
  | inr stays ↦ rw stays (
      find-keep (has_key k) (λ e. not (key_starts_with prefix e)) s.api_cache
        λ e h. let same : e.cache_key ≡ k = (text_eq_iff e.cache_key k).0 h in rw (same, stays))
]

contents-if :
    (b : Bool) (o p : Option Entry)
    → contents (if b then o else p) ≡ (if b then contents o else contents p)
contents-if true o p = refl
contents-if false o p = refl

contents-written :
    (s : Store) (key body : Text) (source : Option Text) (now : ℕ)
    → contents (some (written s key body source now))
      ≡ some (rewritten (view s key) body source now)
unfolding written overwrite
contents-written s key body source now = ground arith

find-has_key :
    (k : Text) (es : List Entry) (e : Entry) → find (has_key k) es ≡ some e → has_key k e ≡ true
unfolding find
find-has_key k [] e h = absurd cc
find-has_key k (x ∷ xs) e h = elim (Bool-cases (has_key k x)) [
  | inl here ↦ let same : x ≡ e = ground arith in rw (← same) here
  | inr there ↦ find-has_key k xs e (ground arith)
]

get_cache-has_key : (s : Store) (k : Text) (e : Entry) → get_cache s k ≡ some e → e.cache_key ≡ k
get_cache-has_key s k e h =
    (text_eq_iff e.cache_key k).0 (unfold get_cache in find-has_key k s.api_cache e h)

apply-IsCache : (op : CacheOp) (s : Store) → IsCache s.api_cache → IsCache (apply op s).api_cache
unfolding apply
apply-IsCache (upsert clock key body cached_at source) s h =
    upsert-IsCache s key body source (write_time cached_at clock) h
apply-IsCache (delete key) s h = keep-IsCache _ s.api_cache h
apply-IsCache (delete_by_prefix prefix) s h = keep-IsCache _ s.api_cache h
apply-IsCache clear s h = keep-IsCache _ s.api_cache h
apply-IsCache (evict before) s h = keep-IsCache _ s.api_cache h

view-apply :
    (op : CacheOp) (s : Store) (k : Text)
    → IsCache s.api_cache
    → view (apply op s) k ≡ apply_spec op (view s) k
unfolding apply apply_spec
view-apply (upsert clock key body cached_at source) s k h =
    let now = write_time cached_at clock in
    ap contents (get_cache-upsert s key body k source now)
    ∙ contents-if (text_eq key k) (some (written s key body source now)) (get_cache s k)
    ∙ ap (λ o. if text_eq key k then o else view s k) (contents-written s key body source now)
view-apply (delete key) s k h =
    ap contents (get_cache-delete s key k) ∙ contents-if (text_eq key k) none (get_cache s k)
view-apply (delete_by_prefix prefix) s k h =
    ap contents (get_cache-delete_by_prefix s prefix k)
    ∙ contents-if (starts_with k prefix) none (get_cache s k)
view-apply clear s k h =
    ap contents (get_cache-clear s k) ∙ contents-if (is_cleared k) none (get_cache s k)
view-apply (evict before) s k h =
    ap contents (get_cache-evict s before k h) ∙ elim (Option-cases (get_cache s k)) [
      | inl none_there ↦ rw none_there refl
      | inr (e, there) ↦
          let same : e.cache_key ≡ k = get_cache-has_key s k e there in
          rw there (
            contents-if (leb before e.cached_at || is_exempt e.cache_key) (some e) none
            ∙ ap
                (λ key. if leb before e.cached_at || is_exempt key then contents (some e) else none)
                same)
    ]

-- From a cache that holds no key and no id twice, any calls end in such a cache, and it reads as the
-- same calls on a map.
pub run_refines :
    (ops : List CacheOp) (s : Store)
    → IsCache s.api_cache
    → IsCache (run ops s).api_cache × (view (run ops s) ≡ run_spec ops (view s))
unfolding run run_spec
run_refines [] s h = (h, refl)
run_refines (op ∷ ops) s h =
    let (kept, reads) = run_refines ops (apply op s) (apply-IsCache op s h) in
    (kept, reads ∙ ap (run_spec ops) (fun_ext λ k. view-apply op s k h))
