-- ===== src/Lib.antt =====
-- RAOfflineProxy: the proxy that answers RetroAchievements requests of emulators while a handheld is
-- offline, queues the awards and flushes them once it is online again. All paths are under
-- linux/raofflineproxy.
--
-- The parts and their files:
-- - Storage (storage.py): the document of the JSON store is the record Store; Storage.Cache has the
--   operations on the cached responses, Storage.Awards those on the pending awards. Every operation of the
--   class reloads the document, changes it and writes it back under a lock, so it is a function of stores.
--   Storage.Migration moves the keys of older versions. Storage.CacheLaws, Storage.Eviction and
--   Storage.AwardLaws prove what the operations keep, and Storage.MapSpec reads the cache as a map.
-- - CacheKeys (cache_keys.py): the keys of the cache, and the parsers of two of them.
-- - FormParams (utils.py): query strings and form bodies; FormParams.Parse and FormParams.Quote are the
--   parts of urllib that the source calls.
-- - Proxy.AwardQueue (proxy_service.py): handle_award_request, queue_offline_award, queue_award. A queued
--   award names the hash of the one before it and carries a signature (AwardSigning, award_signing.py).
-- - Proxy.Requests (proxy_service.py, last_played.py): every request. Dispatch is
--   process_proxy_request, which hands awards to Proxy.AwardQueue, Online is handle_online_request
--   with what is cached of a response, Offline is handle_offline_request and what builds its
--   answers, Key is cache_key_for_request. Kept, Listed, Unlocked,
--   Queued and Quiet prove what they do.
-- - PendingAwards (pending_awards.py): deleting an award in the menu, and the awards that it lists.
-- - Flusher (flusher.py): Chain is verify_chain and repair_pending_chain; Award builds a request; Send reads
--   the answer; Run is flush_pending_awards, with its loop in Run.Loop, the refresh of the games in
--   Run.Refresh and the purge in Run.Purge. Repair, Run.ChainCheck, Run.Kept and Run.Outcome prove what
--   they do.
-- - RomCache (rom_cache.py) and Auth (auth.py) are what a run calls: the games' data, the unlocks and the
--   sessions (RomCache.Unlocks, RomCache.Sessions), the credentials. RomCache.Game caches a whole game.
--   RomCache.GameIds reads which games the cached data names for
--   achievements, and RomCache.GameIds.Search (with last_played.py) searches the cache for some of them.
-- - Queue: the life of the queue of awards as steps between stores, over Proxy, PendingAwards and Flusher;
--   Queue.Interleaved is a running loop of the flush with the changes that are made beside it.
-- - RomBrowser (rom_browser.py): which game the hashes of a ROM name, what is remembered of it, and caching
--   a ROM that waits; RomBrowser.Drain is the loop over the queue, drain_cache_queue. RomBrowser.Local,
--   RomBrowser.Frame and the modules below Drain prove what they do.
-- - Network (network.py): the requests, sent again after a 429, what they say of the reachability of
--   RetroAchievements, the probe, and the headers that are forwarded. Server is what a caller sees of it.
-- - EmulatorConfig.BatoceraConf (batocera_conf.py): patching, reverting and enforcing the configuration file
--   of Batocera, over the lines of Lines.
-- - CacheBudget (cache_budget.py), CacheQueue (cache_queue.py), RateLimit (rate_limit.py): how many games
--   are cached in half an hour, the ROMs that wait for it, and the pause after a 429.
--
-- How the program is read: a text is the list of the bytes of its UTF-8 form, and upper and lower case are
-- those of ASCII; an escape in a form of bytes that are no UTF-8 keeps them, where Python replaces them.
-- An exception is a value of the result, and a write before it stays. Times are natural numbers of
-- milliseconds; `int(a / 1000)` of a difference of times is exact below 2 ^ 53. `int` of a text is
-- read for digits only, and `max(0, a - b)` is the difference of natural numbers. A clock, the answers of
-- RetroAchievements, the configuration of the emulators and the secret's random bytes are arguments. The
-- one loop without a bound of its own, the search for the oldest waiting ROM, has fuel: one more than the
-- number of waiting ROMs is enough. The drain's loop takes what it reads from outside from a list, one element in
-- each turn; it ends by its own time limit.
--
-- Parameters: SHA-256, HMAC, base64 and MD5 are functions of their input (AwardSigning.Crypto). Python's
-- json is a pair of functions of which the second reads what the first wrote (Json.Codec; Json.Plain has a
-- format that does). `str` of a value that is no text is a function in CacheQueue.
--
-- Not modelled: the SQLite store, which runs the same operations as SQL; files, locks and
-- threads, but for the changes of the queue beside a running loop; logging, images, exports and usage
-- counters; the menus, the ROM hashing, the configuration files of the other emulators and the Windows program. The proxy's answers are
-- proved for any rewriting of image URLs and any way to find the sets of another disc. Queueing is
-- proved for any test of the unlocks that are cached; is_already_unlocked_award is the one of the source.
pub mod Prelude
pub mod CacheKeys
pub mod Storage
pub mod Lines
pub mod EmulatorConfig
pub mod FormParams
pub mod Json
pub mod CacheBudget
pub mod CacheQueue
pub mod RateLimit
pub mod AwardSigning
pub mod Server
pub mod Network
pub mod Auth
pub mod RomCache
pub mod RomBrowser
pub mod Flusher
pub mod PendingAwards
pub mod Proxy
pub mod Queue
pub mod Tests
