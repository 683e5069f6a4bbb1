-- ===== src/CacheQueue/Laws.antt =====
-- The queue of linux/raofflineproxy/cache_queue.py: what is read back, what queueing changes, and that
-- the search for the oldest ROM ends.
use raoffline_proxy.Prelude.{
  ℕ, ◌≡◌, refl, ap, ◌∙◌, true, false, Option, none, some, List, [], ◌∷◌, Text, arith, text_eq,
  text_eq_refl, All, Option-cases, inl, inr,
}
use raoffline_proxy.Json.{Json, Codec, str, cons, arr}
use raoffline_proxy.Storage.{Entry, Store}
use raoffline_proxy.Storage.Cache.{get_cache, upsert_cache, overwrite}
use raoffline_proxy.Storage.CacheLaws.{get_cache-upsert, written}
use raoffline_proxy.CacheQueue.{
  QueuedRom, key, to_value, to_json, from_value, from_json, is_blank, keep_texts, text_items,
  hashes_of, read_rom, with_hashes, path_of, update, enqueue, get, read_entry, optional_text,
}

-- A ROM whose texts are not blank.
pub record IsRom (rom : QueuedRom) : Type 0 where
  pub hash : is_blank rom.hash ≡ false
  pub more : All (λ h. is_blank h ≡ false) rom.more_hashes
  pub path : (p : Text) → rom.source_rom_path ≡ some p → is_blank p ≡ false

keep_texts-items :
    (hs : List Text) → All (λ h. is_blank h ≡ false) hs → keep_texts (text_items hs) ≡ hs
unfolding keep_texts
keep_texts-items [] h = refl
keep_texts-items (x ∷ hs) h = ground (arith, h.0, keep_texts-items hs h.1)

path_of-optional :
    (path : Option Text)
    → ((p : Text) → path ≡ some p → is_blank p ≡ false)
    → path_of (optional_text path) ≡ path
unfolding path_of
path_of-optional none h = refl
path_of-optional (some p) h = rw (h p refl) refl

hashes_of-items :
    (rom : QueuedRom)
    → IsRom rom
    → hashes_of (arr (cons (str rom.hash) (text_items rom.more_hashes)))
      ≡ some (rom.hash ∷ rom.more_hashes)
unfolding hashes_of keep_texts
hashes_of-items rom h = rw (h.hash, keep_texts-items rom.more_hashes h.more) refl

read_rom-to_value :
    (show : Json → Text) (rom : QueuedRom)
    → IsRom rom
    → read_rom show (to_value rom) rom.hash rom.more_hashes ≡ some rom
unfolding to_value text_eq read_rom
read_rom-to_value show rom h =
    ap (λ p. some (record rom { source_rom_path = p }))
      (path_of-optional rom.source_rom_path h.path)

from_value-to_value :
    (show : Json → Text) (rom : QueuedRom) → IsRom rom → from_value show (to_value rom) ≡ some rom
unfolding from_value to_value text_eq with_hashes
from_value-to_value show rom h =
    ap (with_hashes show (to_value rom)) (hashes_of-items rom h) ∙ read_rom-to_value show rom h

written-body :
    (s : Store) (k body : Text) (source : Option Text) (now : ℕ)
    → (written s k body source now).response_body ≡ body
unfolding written overwrite
written-body s k body source now = ground arith

module _ (json : Codec) (show : Json → Text) where
  -- What is written of a ROM is read back, if its hashes and its path are not blank.
  pub from_json-to_json :
      (rom : QueuedRom) → IsRom rom → from_json json show (to_json json show rom) ≡ some rom
  unfolding from_json to_json
  from_json-to_json rom h =
      rw (json.loads-dumps (to_value rom), from_json) (from_value-to_value show rom h)

  pub get-update :
      (clock : ℕ) (rom : QueuedRom) (s : Store)
      → IsRom rom
      → get json show (update json show clock rom s) (key rom) ≡ some rom
  unfolding get update upsert_cache read_entry
  get-update clock rom s h =
      let body = to_json json show rom in
      let stored = written s (key rom) body rom.source_rom_path clock in
      let found : get_cache (update json show clock rom s) (key rom) ≡ some stored =
        get_cache-upsert s (key rom) body (key rom) rom.source_rom_path clock
        ∙ rw (text_eq_refl (key rom)) refl in
      ap (read_entry json show) found
      ∙ ap (from_json json show) (written-body s (key rom) body rom.source_rom_path clock)
      ∙ from_json-to_json rom h

  waiting-enqueue :
      (clock : ℕ) (rom : QueuedRom) (s : Store) (e : Entry)
      → get_cache s (key rom) ≡ some e
      → enqueue json show clock rom s ≡ (s, false)
  unfolding enqueue
  waiting-enqueue clock rom s e h = rw (h, enqueue) refl

  new-enqueue :
      (clock : ℕ) (rom : QueuedRom) (s : Store)
      → get_cache s (key rom) ≡ none
      → enqueue json show clock rom s ≡ (update json show clock rom s, true)
  unfolding enqueue
  new-enqueue clock rom s h = rw (h, enqueue) refl

  -- A ROM whose key does not wait is queued, and is what the queue then has under its key.
  pub enqueue-get :
      (clock : ℕ) (rom : QueuedRom) (s : Store)
      → IsRom rom
      → get_cache s (key rom) ≡ none
      → let (s', added) = enqueue json show clock rom s in
        (added ≡ true) × (get json show s' (key rom) ≡ some rom)
  enqueue-get clock rom s h new = rw (new-enqueue clock rom s new) (refl, get-update clock rom s h)

  -- Queueing a ROM again, at any time and with whatever attempts, changes nothing.
  pub enqueue-enqueue :
      (clock clock' : ℕ) (rom rom' : QueuedRom) (s : Store)
      → key rom' ≡ key rom
      → let first = enqueue json show clock rom s in
        enqueue json show clock' rom' first.0 ≡ (first.0, false)
  enqueue-enqueue clock clock' rom rom' s same = elim (Option-cases (get_cache s (key rom))) [
    | inr (e, waits) ↦
        rw (waiting-enqueue clock rom s e waits)
          (waiting-enqueue clock' rom' s e (ap (get_cache s) same ∙ waits))
    | inl new ↦
        let after = update json show clock rom s in
        let body = to_json json show rom in
        let found : get_cache after (key rom)
            ≡ some (written s (key rom) body rom.source_rom_path clock) =
          unfold update upsert_cache in
          (get_cache-upsert s (key rom) body (key rom) rom.source_rom_path clock
            ∙ rw (text_eq_refl (key rom)) refl) in
        rw (new-enqueue clock rom s new)
          (waiting-enqueue clock' rom' after _ (ap (get_cache after) same ∙ found))
  ]
