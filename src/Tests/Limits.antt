-- ===== src/Tests/Limits.antt =====
-- The budget, the pause after a 429, the waiting ROMs, the credentials and the form parameters.
use raoffline_proxy.Prelude.{
  ◌+◌, ◌-◌, ◌≡◌, ◌≤◌, ◌<◌, ◌↔◌, refl, false, some, none, [], ◌∷◌, Text, codes, text_eq,
  if◌then◌else◌, arith, get_or, count, starts_with,
}
use raoffline_proxy.Json.{Json}
use raoffline_proxy.Json.Plain.{plain_codec, loads}
use raoffline_proxy.Storage.Cache.{get_cache, count_cache_by_prefix}
use raoffline_proxy.CacheKeys.{prefix_text}
use raoffline_proxy.CacheBudget.{
  BudgetWindow, remaining, next_available_at, load, charge_game, remaining_now,
}
use raoffline_proxy.CacheBudget.Laws.{available_iff, available_then, run, run-used_le}
use raoffline_proxy.CacheBudget.Stored.{remaining-charge_game}
use raoffline_proxy.RateLimit.{
  RateLimit, rate_limit_pause, on_rate_limited, paused_until_at, on_rate_limited-pauses,
}
use raoffline_proxy.CacheQueue.{QueuedRom, key, to_json, from_json, enqueue, queued_count, is_blank}
use raoffline_proxy.CacheQueue.Laws.{IsRom, from_json-to_json, enqueue-enqueue}
use raoffline_proxy.CacheQueue.Oldest.{Ends, oldest-Ends}
use raoffline_proxy.FormParams.{extract_form_param, replace_or_append_form_param}
use raoffline_proxy.FormParams.Parse.{parse_qsl}
use raoffline_proxy.FormParams.Quote.{quote_plus, unquote_plus, unquote-quote}
use raoffline_proxy.FormParams.Replace.{IsKey, IsSimple, extract-replace}
use raoffline_proxy.Storage.{Store}
use raoffline_proxy.Tests.Data.{cached, game_entry}

-- A window that is used up.
abbrev full : BudgetWindow
full = record { window_start = 10; used = 100; paused_until = 0 }

available_iff_example :
    (0 < remaining full 20 100 1800000) ↔ (next_available_at full 20 100 1800000 ≤ 20)
available_iff_example = available_iff full 20 100 1800000 (omega arith)

available_then_example : 0 < remaining full (next_available_at full 20 100 1800000) 100 1800000
available_then_example = available_then full 20 100 1800000 (omega arith) (omega arith)

run-used_le_example : (run 100 1800000 full (20 ∷ 1800020 ∷ 5 ∷ [])).used ≤ 100
run-used_le_example = run-used_le 100 1800000 (20 ∷ 1800020 ∷ 5 ∷ []) full (omega arith)

remaining-charge_game_example :
    remaining_now plain_codec (charge_game plain_codec 20 20 cached) 20
    ≡ remaining_now plain_codec cached 20 - 1
unfolding load get_cache text_eq loads
remaining-charge_game_example = remaining-charge_game plain_codec 20 20 cached (omega arith)

abbrev free : RateLimit
free = record { paused_until = 0; depth = 0 }

on_rate_limited-pauses_example :
    let r' = on_rate_limited (some 900000) 5 free in
    (paused_until_at r' 10 ≡ some r'.paused_until)
    × (5 + rate_limit_pause ≤ r'.paused_until)
    × (5 + get_or (some 900000) 0 ≤ r'.paused_until)
    × (free.paused_until ≤ r'.paused_until)
    × (r'.depth ≡ free.depth)
on_rate_limited-pauses_example = on_rate_limited-pauses free (some 900000) 5 10 (omega arith)

abbrev rom : QueuedRom
rom = record {
  hash = codes "abc";
  more_hashes = [];
  source_rom_path = none;
  label = codes "Game";
  queued_at = 20;
  attempts = 0;
}

abbrev show : Json → Text
show v = []

rom-IsRom : IsRom rom
unfolding is_blank
rom-IsRom = record { hash = refl; more = tt; path = λ p e. absurd cc }

from_json-to_json_example : from_json plain_codec show (to_json plain_codec show rom) ≡ some rom
from_json-to_json_example = from_json-to_json plain_codec show rom rom-IsRom

enqueue-enqueue_example :
    let first = enqueue plain_codec show 20 rom cached in
    enqueue plain_codec show 30 (record rom { attempts = 2 }) first.0 ≡ (first.0, false)
unfolding key
enqueue-enqueue_example =
    enqueue-enqueue plain_codec show 20 30 rom (record rom { attempts = 2 }) cached refl

-- One entry of the queue cannot be read, and a ROM waits behind it.
abbrev spoiled : Store
spoiled = record cached {
  api_cache =
      record game_entry { cache_key = codes "cachequeue:aa"; response_body = [] }
      ∷ record game_entry {
        cache_key = codes "cachequeue:abc";
        response_body = to_json plain_codec show rom;
      }
      ∷ game_entry
      ∷ [];
}

oldest-Ends_example : Ends plain_codec show 3 spoiled
unfolding queued_count count_cache_by_prefix count starts_with prefix_text
oldest-Ends_example = oldest-Ends plain_codec show 3 spoiled (omega arith)

unquote-quote_example : unquote_plus (quote_plus (codes "a b&c")) ≡ codes "a b&c"
unquote-quote_example =
    unquote-quote (codes "a b&c")
      (omega arith, (omega arith, (omega arith, (omega arith, (omega arith, tt)))))

a-IsKey : IsKey (codes "a")
unfolding unquote_plus
a-IsKey = record { plain = ((ground arith, ground arith), tt); literal = refl }

t-IsKey : IsKey (codes "t")
unfolding unquote_plus
t-IsKey = record { plain = ((ground arith, ground arith), tt); literal = refl }

old-IsSimple : IsSimple (parse_qsl (codes "a=5&t=old"))
unfolding parse_qsl
old-IsSimple =
    ((a-IsKey, (omega arith, tt)), ((t-IsKey, (omega arith, (omega arith, (omega arith, tt)))), tt))

extract-replace_example :
    extract_form_param
      (replace_or_append_form_param (codes "a=5&t=old") (codes "t") (codes "n w"))
      (codes "t")
    ≡ (if text_eq (codes "t") (codes "t")
        then some (codes "n w")
        else extract_form_param (codes "a=5&t=old") (codes "t"))
extract-replace_example =
    extract-replace (codes "a=5&t=old") (codes "t") (codes "n w") (codes "t") old-IsSimple t-IsKey
      (omega arith, (omega arith, (omega arith, tt)))
