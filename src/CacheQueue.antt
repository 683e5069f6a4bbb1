-- ===== src/CacheQueue.antt =====
-- linux/raofflineproxy/cache_queue.py: the ROMs that wait until the budget lets their games be cached.
-- The file locks are left out: every operation runs while no other process writes the store.
pub mod Laws
pub mod Oldest
use raoffline_proxy.Prelude.{
  ℕ, zero, suc, ◌+◌, ◌-◌, ◌*◌, ◌/◌, min, Bool, true, false, ◌&&◌, not, Option, none, some, List, [],
  ◌∷◌, Text, codes, ltb, is_empty, if◌then◌else◌,
}
use raoffline_proxy.CacheKeys.{Prefix, prefix_text, strip}
use raoffline_proxy.CacheKeys.Key
use raoffline_proxy.Json.{
  Json, Items, Fields, null, num, str, arr, obj, nil, cons, end, field, Codec, get_field, to_int,
  is_true,
}
use raoffline_proxy.CacheBudget.{budget_limit}
use raoffline_proxy.Storage.{Entry, Store}
use raoffline_proxy.Storage.Cache.{
  get_cache, upsert_cache, delete_cache, oldest_cache_by_prefix, count_cache_by_prefix,
}

-- CACHE_QUEUE_MAX_ATTEMPTS
abbrev pub max_attempts : ℕ
max_attempts = 3

-- `hashes` is never empty: the first one names the ROM, and the callers pass at least one.
pub record QueuedRom : Type 0 where
  pub hash : Text
  pub more_hashes : List Text
  pub source_rom_path : Option Text
  pub label : Text
  pub queued_at : ℕ
  pub attempts : ℕ

unfoldable pub key : QueuedRom → Text
unfolding Key.cache_queue
key rom = Key.cache_queue rom.hash

unfoldable pub after_failed_attempt : QueuedRom → Option QueuedRom
after_failed_attempt rom =
    if ltb (rom.attempts + 1) max_attempts
    then some (record rom { attempts = rom.attempts + 1 })
    else none

abbrev text_items : List Text → Items
text_items [] = nil
text_items (s ∷ ss) = cons (str s) (text_items ss)

abbrev optional_text : Option Text → Json
optional_text none = null
optional_text (some s) = str s

unfoldable pub to_value : QueuedRom → Json
to_value rom = obj (
    field (codes "hashes") (arr (cons (str rom.hash) (text_items rom.more_hashes))) (
      field (codes "sourceRomPath") (optional_text rom.source_rom_path) (
        field (codes "label") (str rom.label) (
          field (codes "queuedAt") (num rom.queued_at)
            (field (codes "attempts") (num rom.attempts) end)))))

-- `isinstance(value, str) and value.strip()`
unfoldable pub is_blank : Text → Bool
unfolding strip is_empty
is_blank s = is_empty (strip s)

unfoldable pub keep_texts : Items → List Text
unfolding is_blank
keep_texts nil = []
keep_texts (cons (str s) vs) = let rest = keep_texts vs in if is_blank s then rest else s ∷ rest
keep_texts (cons v vs) = keep_texts vs

-- The characters of a text, and the keys of a dict: a loop over them takes each as a text.
unfoldable pub keep_characters : Text → List Text
unfolding is_blank
keep_characters [] = []
keep_characters (c ∷ s) =
    let rest = keep_characters s in if is_blank (c ∷ []) then rest else (c ∷ []) ∷ rest

unfoldable pub keep_names : Fields → List Text
unfolding is_blank
keep_names end = []
keep_names (field k v fs) = let rest = keep_names fs in if is_blank k then rest else k ∷ rest

-- The hashes that are kept; what cannot be looped over raises.
unfoldable pub hashes_of : Json → Option (List Text)
unfolding keep_texts keep_characters keep_names
hashes_of (arr vs) = some (keep_texts vs)
hashes_of (str s) = some (keep_characters s)
hashes_of (obj fs) = some (keep_names fs)
hashes_of _ = none

unfoldable pub path_of : Json → Option Text
unfolding is_blank
path_of (str s) = if is_blank s then none else some s
path_of _ = none

-- `str(payload.get("label") or "")`; `show` is Python's `str` of what is no text.
unfoldable pub label_of : (Json → Text) → Json → Text
unfolding is_true
label_of show (str s) = s
label_of show v = if is_true v then show v else []

unfoldable pub read_rom : (Json → Text) → Json → Text → List Text → Option QueuedRom
unfolding get_field to_int path_of label_of
read_rom show payload hash more = elim (get_field (codes "sourceRomPath") null payload) [
  | none ↦ none
  | some path ↦ elim (get_field (codes "label") null payload) [
    | none ↦ none
    | some label ↦ elim (get_field (codes "queuedAt") (num 0) payload) [
      | none ↦ none
      | some queued ↦ elim (to_int queued) [
        | none ↦ none
        | some queued_at ↦ elim (get_field (codes "attempts") (num 0) payload) [
          | none ↦ none
          | some tried ↦ elim (to_int tried) [
            | none ↦ none
            | some attempts ↦ some (record {
              hash = hash;
              more_hashes = more;
              source_rom_path = path_of path;
              label = label_of show label;
              queued_at = queued_at;
              attempts = attempts;
            })
          ]
        ]
      ]
    ]
  ]
]

-- `if not hashes: return None`
unfoldable pub with_hashes : (Json → Text) → Json → Option (List Text) → Option QueuedRom
unfolding read_rom
with_hashes show payload none = none
with_hashes show payload (some []) = none
with_hashes show payload (some (hash ∷ more)) = read_rom show payload hash more

unfoldable pub from_value : (Json → Text) → Json → Option QueuedRom
unfolding get_field hashes_of with_hashes
from_value show payload = elim (get_field (codes "hashes") (arr nil) payload) [
  | none ↦ none
  | some found ↦ with_hashes show payload (hashes_of found)
]

pub record QueueEstimate : Type 0 where
  pub candidates : ℕ
  pub cached_now : ℕ
  pub newly_queued : ℕ
  pub queued_after : ℕ
  pub eta_minutes : ℕ

unfoldable pub needs_confirmation : QueueEstimate → Bool
needs_confirmation e = ltb 0 e.newly_queued && ltb budget_limit e.queued_after

-- `max(0, a - b)` is the truncated difference; `math.ceil(n / limit)` is rounded up in the naturals.
unfoldable pub estimate_queue : ℕ → ℕ → ℕ → ℕ → ℕ → ℕ → QueueEstimate
estimate_queue candidates already_known budget_remaining queued_now limit window_minutes =
    let fresh = candidates - already_known in
    let now = min fresh budget_remaining in
    record {
      candidates = candidates;
      cached_now = now;
      newly_queued = fresh - now;
      queued_after = queued_now + (fresh - now);
      eta_minutes = (queued_now + (fresh - now) + (limit - 1)) / limit * window_minutes;
    }

abbrev pub queue_prefix : Text
queue_prefix = prefix_text Prefix.cache_queue

module _ (json : Codec) (show : Json → Text) where
  open json use {dumps, loads}

  unfoldable pub to_json : QueuedRom → Text
  unfolding to_value
  to_json rom = dumps (to_value rom)

  unfoldable pub from_json : Text → Option QueuedRom
  unfolding from_value
  from_json body = elim (loads body) [ none ↦ none | some payload ↦ from_value show payload ]

  unfoldable pub update : ℕ → QueuedRom → Store → Store
  update clock rom s = upsert_cache clock (key rom) (to_json rom) none rom.source_rom_path s

  -- False if the ROM waited already.
  unfoldable pub enqueue : ℕ → QueuedRom → Store → Store × Bool
  enqueue clock rom s = elim (get_cache s (key rom)) [
    | some e ↦ (s, false)
    | none ↦ (update clock rom s, true)
  ]

  -- `QueuedRom.from_json(entry["responseBody"]) if entry is not None else None`
  unfoldable pub read_entry : Option Entry → Option QueuedRom
  unfolding from_json
  read_entry none = none
  read_entry (some e) = from_json e.response_body

  unfoldable pub get : Store → Text → Option QueuedRom
  get s k = read_entry (get_cache s k)

  -- An entry that cannot be read is deleted, and the next one is tried. `none`: out of fuel.
  unfoldable pub oldest : ℕ → Store → Option (Store × Option QueuedRom)
  unfolding from_json oldest_cache_by_prefix delete_cache
  oldest zero s = none
  oldest (suc fuel) s = elim (oldest_cache_by_prefix s queue_prefix) [
    | none ↦ some (s, none)
    | some e ↦ elim (from_json e.response_body) [
      | some rom ↦ some (s, some rom)
      | none ↦ oldest fuel (delete_cache e.cache_key s)
    ]
  ]

unfoldable pub remove : QueuedRom → Store → Store
unfolding key delete_cache
remove rom s = delete_cache (key rom) s

unfoldable pub remove_keys : List Text → Store → Store
unfolding delete_cache
remove_keys [] s = s
remove_keys (k ∷ ks) s = remove_keys ks (delete_cache k s)

unfoldable pub queued_count : Store → ℕ
queued_count s = count_cache_by_prefix s queue_prefix
