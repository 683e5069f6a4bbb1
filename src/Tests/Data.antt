-- ===== src/Tests/Data.antt =====
-- The inputs of the tests: a toy cryptography, two queued awards, small stores.
use raoffline_proxy.Prelude.{Bool, true, false, none, some, [], ◌∷◌, ◌++◌, Text, codes}
use raoffline_proxy.Storage.{Award, Entry, Status, Store}
use raoffline_proxy.AwardSigning.{Crypto, verify_award}
use raoffline_proxy.Prelude.Sorted.{insert}
use raoffline_proxy.CacheKeys.Decimal.{decimal, is_digits, int_of}
use raoffline_proxy.FormParams.{extract_request_param}
use raoffline_proxy.Storage.Awards.{get_pending_awards, upsert_pending_award, pending_award_exists}
use raoffline_proxy.Flusher.Chain.{canonical_payload, verify_chain, repair_pending_chain}
use raoffline_proxy.Flusher.Run.{Outside, check_chain}
use raoffline_proxy.Json.{bool, obj, field, end}
use raoffline_proxy.Json.Plain.{plain_codec}
use raoffline_proxy.Server.{HttpGet, HttpPost, Server}
use raoffline_proxy.Auth.{Credentials}
use raoffline_proxy.Proxy.AwardQueue.{Clock, queue_award, queue_checked, new_award, achievement_of}
use raoffline_proxy.Flusher.Run.Loop.{Environment, send_all}
use raoffline_proxy.Flusher.Send.{Sent, UserAgents}

-- What a run computes with.
unfoldable pub program : Unit {0}
unfolding insert get_pending_awards verify_chain canonical_payload decimal is_digits int_of
    verify_award repair_pending_chain check_chain send_all queue_award queue_checked new_award
    achievement_of extract_request_param upsert_pending_award pending_award_exists
program = tt

-- The digest of a text is the text, a signature is the secret before it.
abbrev pub toy : Crypto
toy = record { sha256_hex = λ s. s; hmac_base64 = λ k s. k ++ s; base64 = λ s. s }

abbrev pub secret : Text
secret = codes "k"

abbrev pub first_award : Award
first_award = record {
  id = some 1;
  achievement_id = 5;
  query_string = codes "/q?a=5";
  request_body = [];
  user_agent = codes "RetroArch";
  queued_at = 7;
  retry_count = 0;
  last_error = none;
  status = Status.pending;
  payload_hash = codes "5|/q?a=5||7";
  prev_hash = codes "genesis";
  signature = codes "k5|/q?a=5||7:genesis";
  signed_at = 7;
}

abbrev pub second_award : Award
second_award = record {
  id = some 2;
  achievement_id = 6;
  query_string = codes "/q?a=6";
  request_body = [];
  user_agent = [];
  queued_at = 9;
  retry_count = 0;
  last_error = none;
  status = Status.pending;
  payload_hash = codes "6|/q?a=6||9";
  prev_hash = codes "5|/q?a=5||7";
  signature = codes "k6|/q?a=6||9:5|/q?a=5||7";
  signed_at = 9;
}

-- The second award as if it had been the first.
abbrev pub unlinked : Award
unlinked = record second_award { prev_hash = codes "genesis" }

abbrev pub one_award : Store
one_award = record { api_cache = []; pending_awards = first_award ∷ [] }

abbrev pub two_awards : Store
two_awards = record { api_cache = []; pending_awards = second_award ∷ first_award ∷ [] }

-- Its chain is broken at the second award.
abbrev pub broken : Store
broken = record { api_cache = []; pending_awards = first_award ∷ unlinked ∷ [] }

abbrev pub clock : Clock
clock = record { queued = 9; signed = 9 }

abbrev pub never_unlocked : Store → Text → Text → Bool
never_unlocked s path body = false

-- The first award is taken, the second one meets an error.
abbrev pub half_online : Environment
half_online = record { known = 5 ∷ 6 ∷ []; cached = 5 ∷ 6 ∷ []; send = λ a. Sent.success }

abbrev pub credentials : Credentials
credentials = record { user = codes "bob"; token = codes "t" }

-- RetroAchievements takes every award and knows no game.
abbrev pub server : Server
server = record {
  patch = λ game user token. HttpGet.failed;
  unlocks = λ game user token. HttpGet.failed;
  game_id = λ hash user token. HttpGet.failed;
  achievementsets = λ hash user token. HttpGet.failed;
  login = λ user password. HttpGet.failed;
  award = λ query body agent.
      HttpPost.answer 200 (plain_codec.dumps (obj (field (codes "Success") (bool true) end)));
}

abbrev pub outside : Outside
outside = record {
  server = server;
  clock = 20;
  signed_at = λ index. 20;
  sent_at = λ a. 20;
  configured = some credentials;
  password = none;
}

abbrev pub agents : UserAgents
agents = record { fallback = codes "RetroArch"; tag = codes "RAOfflineProxy" }

abbrev pub md5 : Text → Text
md5 s = s

-- Two cached responses: a game's data and an image.
abbrev pub game_entry : Entry
game_entry = record {
  id = 1;
  cache_key = codes "patch:7:bob";
  response_body = codes "{}";
  source_rom_path = none;
  cached_at = 3;
  first_cached_at = 3;
}

abbrev pub ping_entry : Entry
ping_entry = record game_entry {
  id = 2;
  cache_key = codes "ping";
  cached_at = 4;
  first_cached_at = 2;
}

abbrev pub cached : Store
cached = record { api_cache = game_entry ∷ ping_entry ∷ []; pending_awards = [] }
