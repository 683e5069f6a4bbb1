-- ===== src/Storage/CacheLaws.antt =====
-- The cache of linux/raofflineproxy/storage.py as a map from keys to entries.
use raoffline_proxy.Prelude.{
  ℕ, ◌+◌, ◌≤◌, ◌<◌, ◌≡◌, Bool, false, not, Option, none, some, List, [], ◌∷◌, map, Text, arith,
  text_eq, text_eq_iff, find, find-keep, find-keep-none, keep, All, Distinct, Distinct-keep,
  Bool-cases, inl, inr, if◌then◌else◌, ◌==◌,
}
use raoffline_proxy.Storage.{Entry, Store, max_id, next_json_id}
use raoffline_proxy.Storage.Cache.{
  has_key, overwrite, fresh_entry, put_entry, upsert_cache_json, get_cache, delete_cache,
}

abbrev pub next_id : Store → ℕ
next_id s = next_json_id (map (λ e. e.id) s.api_cache)

-- What a write of `key` leaves under it: the old entry with new contents, or a new entry.
unfoldable pub written : Store → Text → Text → Option Text → ℕ → Entry
written s key body source now = elim (get_cache s key) [
  | none ↦ fresh_entry (next_id s) key body source now
  | some e ↦ overwrite body source now e
]

module _ (id : ℕ) (key body : Text) (source : Option Text) (now : ℕ) where
  find-put_entry :
      (k : Text) (es : List Entry)
      → find (has_key k) (put_entry id key body source now es) ≡ (
          if text_eq key k
          then some (elim (find (has_key key) es) [
            | none ↦ fresh_entry id key body source now
            | some e ↦ overwrite body source now e
          ])
          else find (has_key k) es)
  unfolding find put_entry
  find-put_entry k [] = ground arith
  find-put_entry k (e ∷ es) = ground (
    arith,
    find-put_entry k es,
    text_eq_iff e.cache_key key,
    text_eq_iff key k,
    text_eq_iff e.cache_key k,
  )

-- Reading a key after a write gives the written entry for that key and the old one for any other.
pub get_cache-upsert :
    (s : Store) (key body k : Text) (source : Option Text) (now : ℕ)
    → get_cache (upsert_cache_json key body source now s) k
      ≡ (if text_eq key k then some (written s key body source now) else get_cache s k)
unfolding get_cache upsert_cache_json written
get_cache-upsert s key body k source now =
    find-put_entry (next_id s) key body source now k s.api_cache

-- A deleted key is gone, and no other key is touched.
pub get_cache-delete :
    (s : Store) (key k : Text)
    → get_cache (delete_cache key s) k ≡ (if text_eq key k then none else get_cache s k)
unfolding get_cache delete_cache
get_cache-delete s key k = elim (Bool-cases (text_eq key k)) [
  | inl same ↦ rw same (
      find-keep-none (has_key k) (λ e. not (has_key key e)) s.api_cache
        λ e h.
          ground (arith, text_eq_iff key k, text_eq_iff e.cache_key k, text_eq_iff e.cache_key key))
  | inr apart ↦ rw apart (
      find-keep (has_key k) (λ e. not (has_key key e)) s.api_cache
        λ e h.
          ground (arith, text_eq_iff key k, text_eq_iff e.cache_key k, text_eq_iff e.cache_key key))
]

abbrev pub same_key : Entry → Entry → Bool
same_key a b = text_eq a.cache_key b.cache_key

abbrev pub same_id : Entry → Entry → Bool
same_id a b = a.id == b.id

-- The invariant of the list: no key twice, and no id twice.
pub record IsCache (es : List Entry) : Type 0 where
  pub keys : Distinct same_key es
  pub ids : Distinct same_id es

-- An id that no entry has.
abbrev IsFresh : ℕ → List Entry → Type 0
IsFresh id es = All (λ e. e.id < id) es

IsFresh-le : {m n : ℕ} (es : List Entry) → m ≤ n → IsFresh m es → IsFresh n es
IsFresh-le [] h f = tt
IsFresh-le (e ∷ es) h f = (omega arith, IsFresh-le es h f.1)

max_id-IsFresh : (es : List Entry) → IsFresh (max_id (map (λ e. e.id) es) + 1) es
unfolding max_id
max_id-IsFresh [] = tt
max_id-IsFresh (e ∷ es) = (omega arith, IsFresh-le es (omega arith) (max_id-IsFresh es))

next_json_id-IsFresh : (es : List Entry) → IsFresh (next_json_id (map (λ e. e.id) es)) es
unfolding next_json_id
next_json_id-IsFresh [] = tt
next_json_id-IsFresh (e ∷ es) = max_id-IsFresh (e ∷ es)

module _ (id : ℕ) (key body : Text) (source : Option Text) (now : ℕ) where
  put : List Entry → List Entry
  put = put_entry id key body source now

  put-apart :
      (e : Entry) (es : List Entry)
      → text_eq e.cache_key key ≡ false
      → All (λ y. same_key e y ≡ false) es
      → All (λ y. same_key e y ≡ false) (put es)
  unfolding put put_entry
  put-apart e [] n h = (n, tt)
  put-apart e (y ∷ ys) n h = elim (Bool-cases (has_key key y)) [
    | inl same ↦ rw same (h.0, h.1)
    | inr apart ↦ rw apart (h.0, put-apart e ys n h.1)
  ]

  put-keys : (es : List Entry) → Distinct same_key es → Distinct same_key (put es)
  unfolding put put_entry
  put-keys [] h = (tt, tt)
  put-keys (e ∷ es) h = elim (Bool-cases (has_key key e)) [
    | inl same ↦ rw same (h.0, h.1)
    | inr apart ↦ rw apart (put-apart e es apart h.0, put-keys es h.1)
  ]

  put-other_id :
      (e : Entry) (es : List Entry)
      → e.id < id
      → All (λ y. same_id e y ≡ false) es
      → All (λ y. same_id e y ≡ false) (put es)
  unfolding put put_entry
  put-other_id e [] n h = (ground arith, tt)
  put-other_id e (y ∷ ys) n h = elim (Bool-cases (has_key key y)) [
    | inl same ↦ rw same (h.0, h.1)
    | inr apart ↦ rw apart (h.0, put-other_id e ys n h.1)
  ]

  put-ids : (es : List Entry) → IsFresh id es → Distinct same_id es → Distinct same_id (put es)
  unfolding put put_entry
  put-ids [] f h = (tt, tt)
  put-ids (e ∷ es) f h = elim (Bool-cases (has_key key e)) [
    | inl same ↦ rw same (h.0, h.1)
    | inr apart ↦ rw apart (put-other_id e es f.0 h.0, put-ids es f.1 h.1)
  ]

-- A write keeps the invariant.
pub upsert-IsCache :
    (s : Store) (key body : Text) (source : Option Text) (now : ℕ)
    → IsCache s.api_cache
    → IsCache (upsert_cache_json key body source now s).api_cache
unfolding upsert_cache_json
upsert-IsCache s key body source now h =
    unfold put in
    record {
      keys = put-keys (next_id s) key body source now s.api_cache h.keys;
      ids =
          put-ids (next_id s) key body source now s.api_cache (next_json_id-IsFresh s.api_cache)
            h.ids;
    }

-- Whatever is deleted, the rest keeps the invariant.
pub keep-IsCache : (p : Entry → Bool) (es : List Entry) → IsCache es → IsCache (keep p es)
keep-IsCache p es h = record {
  keys = Distinct-keep same_key p es h.keys;
  ids = Distinct-keep same_id p es h.ids;
}
