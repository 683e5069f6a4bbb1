-- ===== src/Storage/Eviction.antt =====
-- What ages out of the cache, what "clear cache" removes and which entry is the oldest:
-- linux/raofflineproxy/storage.py, `evict_cache_older_than`, `clear_cache`, `oldest_cache_by_prefix`.
use raoffline_proxy.Prelude.{
  ℕ, ◌≡◌, refl, Bool, true, false, not, none, some, List, [], ◌∷◌, Text, arith, text_eq_iff, find,
  find-keep, find-keep-none, keep, All, Distinct, Bool-cases, inl, inr, leb, ◌||◌, if◌then◌else◌,
  starts_with,
}
use raoffline_proxy.CacheKeys.Key
use raoffline_proxy.Storage.{Entry, Store}
use raoffline_proxy.Storage.Cache.{
  has_key, get_cache, clear_cache, is_cleared, evict_cache_older_than, is_exempt, older,
  oldest_from, oldest_of, oldest_cache_by_prefix, entries_by_prefix,
}
use raoffline_proxy.Storage.CacheLaws.{IsCache, same_key}

find-absent :
    (k : Text) (e : Entry) (es : List Entry)
    → has_key k e ≡ true
    → All (λ y. same_key e y ≡ false) es
    → find (has_key k) es ≡ none
unfolding find
find-absent k e [] h a = refl
find-absent k e (y ∷ ys) h a = ground (
  arith,
  find-absent k e ys,
  text_eq_iff e.cache_key k,
  text_eq_iff y.cache_key k,
  text_eq_iff e.cache_key y.cache_key,
)

-- Where no key stands twice, a filter of the entries filters what a key finds.
pub find-keep-Distinct :
    (q : Entry → Bool) (k : Text) (es : List Entry)
    → Distinct same_key es
    → find (has_key k) (keep q es)
      ≡ elim (find (has_key k) es) [ none ↦ none | some e ↦ if q e then some e else none ]
unfolding find keep
find-keep-Distinct q k [] d = refl
find-keep-Distinct q k (e ∷ es) d = elim (Bool-cases (has_key k e)) [
  | inl here ↦
      let gone : find (has_key k) es ≡ none = find-absent k e es here d.0 in
      ground (arith, find-keep-Distinct q k es d.1)
  | inr there ↦ ground (arith, find-keep-Distinct q k es d.1)
]

-- Exactly the entries that are neither exempt nor new enough age out; all others stay as they are.
pub get_cache-evict :
    (s : Store) (before : ℕ) (key : Text)
    → IsCache s.api_cache
    → get_cache (evict_cache_older_than before s) key ≡ elim (get_cache s key) [
      | none ↦ none
      | some e ↦ if leb before e.cached_at || is_exempt e.cache_key then some e else none
    ]
unfolding get_cache evict_cache_older_than
get_cache-evict s before key c =
    find-keep-Distinct (λ e. leb before e.cached_at || is_exempt e.cache_key) key s.api_cache c.keys

get_cache-evict_exempt :
    (s : Store) (before : ℕ) (key : Text)
    → is_exempt key ≡ true
    → get_cache (evict_cache_older_than before s) key ≡ get_cache s key
unfolding get_cache evict_cache_older_than
get_cache-evict_exempt s before key x =
    find-keep (has_key key) (λ e. leb before e.cached_at || is_exempt e.cache_key) s.api_cache
      λ e h.
        let same : e.cache_key ≡ key = (text_eq_iff e.cache_key key).0 h in
        rw (same, x) (ground arith)

-- Cached game data, logins, the queue and the markers of watched files never age out.
pub evict-keeps_games :
    (s : Store) (before game : ℕ) (user hash path : Text)
    → let after = evict_cache_older_than before s in
      (get_cache after (Key.patch game user) ≡ get_cache s (Key.patch game user))
      × (get_cache after (Key.unlocks game user) ≡ get_cache s (Key.unlocks game user))
      × (get_cache after (Key.start_session game user) ≡ get_cache s (Key.start_session game user))
      × (get_cache after (Key.achievementsets hash user)
          ≡ get_cache s (Key.achievementsets hash user))
      × (get_cache after (Key.game_id hash) ≡ get_cache s (Key.game_id hash))
      × (get_cache after (Key.login user) ≡ get_cache s (Key.login user))
      × (get_cache after (Key.cache_queue hash) ≡ get_cache s (Key.cache_queue hash))
      × (get_cache after (Key.watch_seen path) ≡ get_cache s (Key.watch_seen path))
unfolding is_exempt Key.patch Key.unlocks Key.start_session Key.achievementsets Key.game_id
    Key.login Key.cache_queue Key.watch_seen starts_with
evict-keeps_games s before game user hash path = (
  get_cache-evict_exempt s before (Key.patch game user) refl,
  get_cache-evict_exempt s before (Key.unlocks game user) refl,
  get_cache-evict_exempt s before (Key.start_session game user) refl,
  get_cache-evict_exempt s before (Key.achievementsets hash user) refl,
  get_cache-evict_exempt s before (Key.game_id hash) refl,
  get_cache-evict_exempt s before (Key.login user) refl,
  get_cache-evict_exempt s before (Key.cache_queue hash) refl,
  get_cache-evict_exempt s before (Key.watch_seen path) refl,
)

-- "Clear cache" removes the keys of games, of the queue and of its budget, and nothing else.
pub get_cache-clear :
    (s : Store) (key : Text)
    → get_cache (clear_cache s) key ≡ (if is_cleared key then none else get_cache s key)
unfolding get_cache clear_cache
get_cache-clear s key = elim (Bool-cases (is_cleared key)) [
  | inl gone ↦ rw gone (
      find-keep-none (has_key key) (λ e. not (is_cleared e.cache_key)) s.api_cache
        λ e h. let same : e.cache_key ≡ key = (text_eq_iff e.cache_key key).0 h in rw (same, gone))
  | inr stays ↦ rw stays (
      find-keep (has_key key) (λ e. not (is_cleared e.cache_key)) s.api_cache
        λ e h. let same : e.cache_key ≡ key = (text_eq_iff e.cache_key key).0 h in rw (same, stays))
]

-- The earlier of two entries: what is not before it is before neither.
abbrev earlier : Entry → Entry → Entry
earlier a e = if older e a then e else a

earlier_covers :
    (a e r : Entry) → older (earlier a e) r ≡ false → (older a r ≡ false) × (older e r ≡ false)
unfolding older
earlier_covers a e r h = ground arith

older_irrefl : (a : Entry) → older a a ≡ false
unfolding older
older_irrefl a = ground arith

abbrev NoneOlder : Entry → List Entry → Type 0
NoneOlder best es = All (λ e. older e best ≡ false) es

oldest_from_lem : (best : Entry) (es : List Entry) → NoneOlder (oldest_from best es) (best ∷ es)
unfolding oldest_from
oldest_from_lem best [] = (older_irrefl best, tt)
oldest_from_lem best (e ∷ es) =
    let ih : NoneOlder (oldest_from (earlier best e) es) (earlier best e ∷ es) =
      oldest_from_lem (earlier best e) es in
    let both = earlier_covers best e (oldest_from (earlier best e) es) ih.0 in
    (both.0, (both.1, ih.1))

-- The oldest entry of a prefix: it is one of the entries, and no other was first cached before it,
-- nor at the same time with a smaller id.
pub oldest-NoneOlder :
    (s : Store) (prefix : Text) (e : Entry)
    → oldest_cache_by_prefix s prefix ≡ some e
    → All (λ x. older x e ≡ false) (entries_by_prefix s prefix)
unfolding oldest_cache_by_prefix oldest_of
oldest-NoneOlder s prefix e h = go (entries_by_prefix s prefix) h
  where
    go : (es : List Entry) → oldest_of es ≡ some e → All (λ x. older x e ≡ false) es
    go [] p = tt
    go (x ∷ es) p = ground (arith, oldest_from_lem x es)
