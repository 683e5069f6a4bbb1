-- ===== src/Tests/Proxy.antt =====
-- Requests to the proxy.
use raoffline_proxy.Prelude.{false, Option, none, [], ◌∷◌, Text, codes}
use raoffline_proxy.CacheKeys.Key
use raoffline_proxy.Json.{Fields, obj, arr, num, nil, cons, field, end}
use raoffline_proxy.Json.Plain.{plain_codec, dumps}
use raoffline_proxy.Storage.{Entry, Store}
use raoffline_proxy.Proxy.AwardQueue.{network_error}
use raoffline_proxy.Proxy.Requests.Dispatch.{Outside}
use raoffline_proxy.Tests.Data.{game_entry, clock, two_awards}

abbrev path : Text
path = codes "/dorequest.php?r=gameid&m=abc"

abbrev response : Text
response = codes "{\"Success\":true,\"GameID\":7}"

abbrev as_is : Option Text → Text → Text
as_is action body = body

abbrev no_disc : Store → Text → Text → Option Entry
no_disc s hash user = none

abbrev bob : Text
bob = codes "bob"

-- The cached unlocks of a game list one achievement, the cached session another one.
abbrev unlocks : Fields
unlocks = field (codes "UserUnlocks") (arr (cons (num 5) nil)) (field (codes "GameID") (num 7) end)

abbrev session : Fields
session = field (codes "Unlocks") (arr (cons (obj (field (codes "ID") (num 6) end)) nil)) end

abbrev bobs : Store
bobs = record {
  api_cache =
      record game_entry {
        cache_key = codes "unlocks:7:bob:0";
        response_body = plain_codec.dumps (obj unlocks);
      }
      ∷ record game_entry {
        cache_key = codes "startsession:7:bob:0";
        response_body = plain_codec.dumps (obj session);
      }
      ∷ [];
  pending_awards = two_awards.pending_awards;
}

abbrev offline : Outside
offline = record {
  clock = 50;
  award_clock = clock;
  is_online = λ check. false;
  login_upstream = network_error;
  upstream = network_error;
}

-- An award that is sent while offline.
abbrev award : Text
award = codes "/dorequest.php?r=awardachievement&u=bob&a=8&h=0"
