-- ===== src/Storage.antt =====
-- linux/raofflineproxy/storage.py, the JSON store: its document, and the operations on the cached
-- responses and on the pending awards in the modules below.
pub mod Cache
pub mod CacheLaws
pub mod Eviction
pub mod MapSpec
pub mod Migration
pub mod Awards
pub mod AwardLaws
use raoffline_proxy.Prelude.{
  ℕ, zero, suc, ◌+◌, max, Bool, true, false, Option, none, some, List, [], ◌∷◌, map, Text, text_eq,
  get_or,
}

-- An element of the document's list "api_cache".
pub record Entry : Type 0 where
  pub id : ℕ
  pub cache_key : Text
  pub response_body : Text
  pub source_rom_path : Option Text
  pub cached_at : ℕ
  pub first_cached_at : ℕ

-- The status texts PENDING_AWARD_STATUS_…; a store written by another version may hold others.
pub data Status : Type 0 where
  pending deleted stale flushed : Status
  other : Text → Status

unfoldable pub status_eq : Status → Status → Bool
status_eq pending pending = true
status_eq deleted deleted = true
status_eq stale stale = true
status_eq flushed flushed = true
status_eq (other s) (other t) = text_eq s t
status_eq _ _ = false

-- An element of the document's list "pending_awards". An award that was never stored has no id.
pub record Award : Type 0 where
  pub id : Option ℕ
  pub achievement_id : ℕ
  pub query_string : Text
  pub request_body : Text
  pub user_agent : Text
  pub queued_at : ℕ
  pub retry_count : ℕ
  pub last_error : Option Text
  pub status : Status
  pub payload_hash : Text
  pub prev_hash : Text
  pub signature : Text
  pub signed_at : ℕ

-- The document that the file holds.
pub record Store : Type 0 where
  pub api_cache : List Entry
  pub pending_awards : List Award

abbrev pub empty_store : Store
empty_store = record { api_cache = []; pending_awards = [] }

-- What `_reload_json_state_unlocked` finds at the path of the file.
pub data JsonFile : Type 0 where
  absent : JsonFile
  corrupt : JsonFile
  document : Store → JsonFile

-- The state after the reload, and whether the file was put aside as corrupt.
unfoldable pub reload : JsonFile → Store × Bool
reload absent = (empty_store, false)
reload corrupt = (empty_store, true)
reload (document s) = (s, false)

unfoldable pub max_id : List ℕ → ℕ
max_id [] = 0
max_id (n ∷ ns) = max n (max_id ns)

-- `next_json_id`, of the ids of the list.
unfoldable pub next_json_id : List ℕ → ℕ
unfolding max_id
next_json_id [] = 1
next_json_id (n ∷ ns) = max_id (n ∷ ns) + 1
