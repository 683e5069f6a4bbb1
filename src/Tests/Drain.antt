-- ===== src/Tests/Drain.antt =====
-- The queue of ROMs, worked through.
use raoffline_proxy.Prelude.{
  ◌≡◌, ◌≤◌, refl, true, false, none, some, [], ◌∷◌, Text, codes, arith, any, text_eq,
}
use raoffline_proxy.Json.{Json}
use raoffline_proxy.Json.Plain.{plain_codec, loads}
use raoffline_proxy.Storage.{Store}
use raoffline_proxy.Storage.Cache.{get_cache, upsert_cache}
use raoffline_proxy.CacheBudget.{load, budget_limit}
use raoffline_proxy.CacheQueue.{QueuedRom, key, get, enqueue, is_blank, update}
use raoffline_proxy.CacheQueue.Laws.{IsRom}
use raoffline_proxy.RomBrowser.{unanswered, local_game_id_answer, look_up}
use raoffline_proxy.RomBrowser.Caching.{cache_queued_rom}
use raoffline_proxy.RomBrowser.Local.{Agrees, local_game_id_answer-look_up}
use raoffline_proxy.RomBrowser.Drain.{request_rom, start, drain_locked}
use raoffline_proxy.RomBrowser.Drain.State.{Drain, DrainResult, Turn}
use raoffline_proxy.RomBrowser.Drain.Ends.{drain_locked-ends}
use raoffline_proxy.RomBrowser.Drain.Within.{IsWithin, later-IsWithin}
use raoffline_proxy.RomBrowser.Drain.Budget.{InOrder, drain_locked-used_le}
use raoffline_proxy.RomBrowser.Drain.Queue.{expected_of, request_rom-queue}
use raoffline_proxy.Tests.Data.{cached, credentials, server}

abbrev show : Json → Text
show v = []

abbrev rom : QueuedRom
rom = record {
  hash = codes "abc";
  more_hashes = codes "abd" ∷ [];
  source_rom_path = none;
  label = codes "Game";
  queued_at = 20;
  attempts = 0;
}

rom-IsRom : IsRom rom
unfolding is_blank
rom-IsRom = record { hash = refl; more = (refl, tt); path = λ p e. absurd cc }

-- The ROM waits.
abbrev waiting : Store
waiting = (enqueue plain_codec show 20 rom cached).0

-- RetroAchievements cannot be reached.
abbrev asking : Turn
asking = record {
  should_pause = false;
  limited = none;
  now = 30;
  server = server;
  later = 40;
  limited_later = none;
  waited = λ s. (s, true);
}

abbrev late : Turn
late = record asking { now = 1800020; later = 1800030 }

drain_locked-ends_example :
    (answer : Drain × DrainResult) × (drain_locked plain_codec show credentials 20
        (asking ∷ late ∷ [])
        none
        waiting
      ≡ some answer)
unfolding any
drain_locked-ends_example =
    drain_locked-ends plain_codec show credentials 20 (asking ∷ late ∷ []) none waiting refl

waiting-IsWithin : IsWithin 20 (load plain_codec waiting)
unfolding load get_cache text_eq loads enqueue upsert_cache key update
waiting-IsWithin = record { used = omega arith; started = omega arith }

asking-InOrder : InOrder plain_codec show credentials 20 (asking ∷ late ∷ [])
asking-InOrder = (
  omega arith,
  omega arith,
  (λ s h. later-IsWithin 30 40 (load plain_codec s) (omega arith) h),
  (
    omega arith,
    omega arith,
    (λ s h. later-IsWithin 1800020 1800030 (load plain_codec s) (omega arith) h),
    tt,
  ),
)

-- What the drain ends with.
drained :
    (answer : Drain × DrainResult) × (drain_locked plain_codec show credentials 20
        (asking ∷ late ∷ [])
        none
        waiting
      ≡ some answer)
unfolding any
drained = drain_locked-ends plain_codec show credentials 20 (asking ∷ late ∷ []) none waiting refl

drain_locked-used_le_example : (load plain_codec drained.0.0.store).used ≤ budget_limit
drain_locked-used_le_example =
    drain_locked-used_le plain_codec show credentials 20 (asking ∷ late ∷ []) none waiting
      drained.0.0 drained.0.1 waiting-IsWithin asking-InOrder drained.1

request_rom-queue_example :
    let d = start plain_codec show credentials none waiting in
    let handled =
      cache_queued_rom plain_codec server credentials 40 rom d.known_game_ids unanswered waiting in
    get plain_codec show
      (request_rom plain_codec show credentials asking rom unanswered d).0.store
      (key rom)
    ≡ expected_of plain_codec show asking rom
        (get plain_codec show waiting (key rom))
        handled.outcome
unfolding start
request_rom-queue_example =
    request_rom-queue plain_codec show credentials asking rom unanswered
      (start plain_codec show credentials none waiting) rom-IsRom

-- The hash is known not to be one of RetroAchievements, an hour later still.
abbrev missed : Store
missed = upsert_cache 20 (codes "gameid:abc") (codes "{}") none none cached

local_game_id_answer-look_up_example :
    Agrees
      (local_game_id_answer plain_codec missed (codes "abc" ∷ []) 3600020)
      missed
      (look_up plain_codec server credentials 3600020 (codes "abc" ∷ []) missed)
local_game_id_answer-look_up_example =
    local_game_id_answer-look_up plain_codec server credentials 3600020 missed (codes "abc" ∷ [])
