-- ===== src/Queue/Flushed.antt =====
-- A whole run of `flush_pending_awards` of linux/raofflineproxy/flusher.py keeps a queue sound.
use raoffline_proxy.Prelude.{
  ℕ, ◌≡◌, refl, ap, ◌∙◌, subst, Bool, true, false, Option, none, some, List, [], ◌∷◌, map, Text,
  arith, any, Bool-cases, Option-cases, inl, inr, ltb, ◌++◌,
}
use raoffline_proxy.Prelude.Sorted.{sort}
use raoffline_proxy.Json.{Codec}
use raoffline_proxy.Server.{HttpGet, Server}
use raoffline_proxy.Storage.{Award, Store, pending}
use raoffline_proxy.Storage.Awards.{award_le, get_pending_awards, has_status}
use raoffline_proxy.Storage.Cache.{upsert_cache, upsert_cache_json, delete_cache}
use raoffline_proxy.AwardSigning.{Crypto}
use raoffline_proxy.Auth.{Credentials, resolve_credentials, mark_token_invalid, clear_invalid_token}
use raoffline_proxy.Auth.Laws.{awards-resolve_credentials, awards-upsert_cache}
use raoffline_proxy.RomCache.{
  refresh_game_patch, cache_unlocks, patched, auth_rejected, refused, Patched,
}
use raoffline_proxy.RomCache.Unlocks.{GameIds}
use raoffline_proxy.RomCache.Sessions.{cache_session}
use raoffline_proxy.RomCache.GameIds.Search.{find_achievement_game_ids}
use raoffline_proxy.Flusher.Run.Refresh.{
  Refreshed, read_patched, refresh_games, refresh_and_load, loaded, not_refreshed,
}
use raoffline_proxy.Flusher.Chain.{valid, verify_chain}
use raoffline_proxy.Flusher.Send.{UserAgents}
use raoffline_proxy.Flusher.Run.{
  Flush, Outside, check_chain, refresh_sessions, conclude, finish, flush_refreshed, flush_with,
  flush_checked, flush_verdict, flush_pending_awards, unless_empty, environment, still_pending,
}
use raoffline_proxy.Flusher.Run.Loop.{Progress, send_all, start}
use raoffline_proxy.Queue.Sound.{IsSound, IsSound-awards, purge-IsSound}
use raoffline_proxy.Queue.Loop.{send_all-IsSound}

module _ (json : Codec) where
  refresh_game_patch-awards :
      (answer : HttpGet) (clock game : ℕ) (creds : Credentials) (source : Option Text) (s : Store)
      → (refresh_game_patch json answer clock game creds source s).0.pending_awards
        ≡ s.pending_awards
  unfolding refresh_game_patch upsert_cache upsert_cache_json
  refresh_game_patch-awards answer clock game creds source s = ground arith

  cache_unlocks-awards :
      (answer : HttpGet) (clock game : ℕ) (creds : Credentials) (s s' : Store)
      → cache_unlocks json answer clock game creds s ≡ some s'
      → s'.pending_awards ≡ s.pending_awards
  unfolding cache_unlocks upsert_cache upsert_cache_json
  cache_unlocks-awards answer clock game creds s s' h = ground arith

  session-awards :
      (clock game : ℕ) (user : Text) (s s' : Store)
      → cache_session json clock game user s ≡ some s'
      → s'.pending_awards ≡ s.pending_awards
  unfolding cache_session upsert_cache upsert_cache_json
  session-awards clock game user s s' h = ground arith

  module _ (server : Server) (clock : ℕ) (creds : Credentials) where
    read_patched-awards :
        (s : Store) (answer : Patched)
        → (read_patched json server clock creds (s, answer)).0.pending_awards ≡ s.pending_awards
    unfolding read_patched mark_token_invalid clear_invalid_token delete_cache
    read_patched-awards s auth_rejected = awards-upsert_cache clock _ _ none none s
    read_patched-awards s refused = refl
    read_patched-awards s Patched.raised = refl
    read_patched-awards s (patched text) = refl

    game-awards :
        (game : ℕ) (s : Store)
        → (read_patched json server clock creds (
            refresh_game_patch json
              (server.patch game creds.user creds.token)
              clock
              game
              creds
              none
              s)).0.pending_awards
          ≡ s.pending_awards
    game-awards game s =
        let answer = server.patch game creds.user creds.token in
        let got = refresh_game_patch json answer clock game creds none s in
        read_patched-awards got.0 got.1 ∙ refresh_game_patch-awards answer clock game creds none s

    pub refresh_games-awards :
        (games known later : List ℕ) (s : Store)
        → (refresh_games json server clock creds games known later s).0.pending_awards
          ≡ s.pending_awards
    unfolding refresh_games
    refresh_games-awards games known [] s = refl
    refresh_games-awards games known (game ∷ later) s =
        let got =
          refresh_game_patch json (server.patch game creds.user creds.token) clock game creds none
            s in
        go (λ ids s'. refresh_games-awards games (known ++ ids) later s')
          (read_patched json server clock creds got) (game-awards game s)
      where
        go :
            ((ids : List ℕ) (s' : Store)
              → (refresh_games json server clock creds games
                  (known ++ ids)
                  later
                  s').0.pending_awards
                ≡ s'.pending_awards)
            → (ended : Store × Refreshed) → ended.0.pending_awards ≡ s.pending_awards
            → (elim ended.1 as (λ x. Store × Refreshed) [
              | loaded ids none_else ↦
                  refresh_games json server clock creds games (known ++ ids) later ended.0
              | not_refreshed ↦ (ended.0, not_refreshed)
              | Refreshed.raised ↦ (ended.0, Refreshed.raised)
            ]).0.pending_awards
              ≡ s.pending_awards
        go rest (s', loaded ids none_else) e = rest ids s' ∙ e
        go rest (s', not_refreshed) e = e
        go rest (s', Refreshed.raised) e = e

unless-IsSound :
    {c : Crypto} {secret : Text} (awards : List Award) (s : Store) (run : Store × Flush)
    → IsSound c secret s
    → IsSound c secret run.0
    → IsSound c secret (unless_empty awards s run).0
unfolding unless_empty
unless-IsSound [] s run h r = h
unless-IsSound (a ∷ later) s run h r = r

module _ (json : Codec) (c : Crypto) (secret : Text) (md5_hex : Text → Text) (agents : UserAgents)
    (o : Outside) where
  sessions-awards :
      (creds : Credentials) (games : List ℕ) (s : Store)
      → (refresh_sessions json c secret md5_hex agents o creds games s).0.pending_awards
        ≡ s.pending_awards
  unfolding refresh_sessions cache_session upsert_cache upsert_cache_json
  sessions-awards creds [] s = refl
  sessions-awards creds (game ∷ later) s =
      let same : (s' : Store)
          → cache_unlocks json (o.server.unlocks game creds.user creds.token) o.clock game creds s
            ≡ some s'
          → s'.pending_awards ≡ s.pending_awards =
        λ s'.
          cache_unlocks-awards json (o.server.unlocks game creds.user creds.token) o.clock game
            creds s s' in
      elim (Option-cases
        (cache_unlocks json (o.server.unlocks game creds.user creds.token) o.clock game creds s)) [
          | inl failed ↦ rw (failed, refresh_sessions) refl
          | inr (s', fine) ↦ elim (Option-cases (cache_session json o.clock game creds.user s')) [
            | inl broken ↦ rw (fine, broken, refresh_sessions) (same s' fine)
            | inr (s'', stored) ↦
                rw (fine, stored, refresh_sessions)
                  (sessions-awards creds later s''
                    ∙ (session-awards json o.clock game creds.user s' s'' stored ∙ same s' fine))
          ]
        ]

  conclude-IsSound :
      (awards : List Award) (p : Progress) (ended : Store × Bool)
      → IsSound c secret ended.0
      → IsSound c secret (conclude json c secret md5_hex agents o awards p ended).0
  unfolding conclude
  conclude-IsSound awards p (s, false) h = h
  conclude-IsSound awards p (s, true) h = purge-IsSound c secret s h

  finish-IsSound :
      (creds : Credentials) (games : List ℕ) (awards : List Award) (run : Progress × Bool)
      → IsSound c secret run.0.store
      → IsSound c secret (finish json c secret md5_hex agents o creds games awards run).0
  unfolding finish
  finish-IsSound creds games awards (p, false) h = h
  finish-IsSound creds games awards (p, true) h = elim (Bool-cases (ltb 0 p.flushed)) [
    | inl some_flushed ↦
        rw (some_flushed, finish)
          (conclude-IsSound awards p
            (refresh_sessions json c secret md5_hex agents o creds games p.store)
            (IsSound-awards c secret p.store _ (sessions-awards creds games p.store) h))
    | inr none_flushed ↦ rw (none_flushed, finish) (conclude-IsSound awards p (p.store, true) h)
  ]

  refreshed-IsSound :
      (creds : Credentials) (ids : GameIds) (awards : List Award) (ended : Store × Refreshed)
      → get_pending_awards ended.0 ≡ awards
      → IsSound c secret ended.0
      → IsSound c secret (flush_refreshed json c secret md5_hex agents o creds ids awards ended).0
  unfolding flush_refreshed
  refreshed-IsSound creds ids awards (s, not_refreshed) e h = h
  refreshed-IsSound creds ids awards (s, Refreshed.raised) e h = h
  refreshed-IsSound creds ids awards (s, loaded known games) e h =
      let env = environment json c secret md5_hex agents o creds ids known in
      finish-IsSound creds games awards (send_all env awards (start s)) (
        subst (λ xs. IsSound c secret (send_all env xs (start s)).0.store) e
          (send_all-IsSound c secret env s h))

  loaded-IsSound :
      (creds : Credentials) (ids : GameIds) (awards : List Award) (s : Store)
      → get_pending_awards s ≡ awards
      → IsSound c secret s
      → IsSound c secret
          (flush_refreshed json c secret md5_hex agents o creds ids awards
            (refresh_and_load json o.server o.clock creds ids (still_pending awards) s)).0
  unfolding refresh_and_load
  loaded-IsSound creds ids awards s e h =
      let ended = refresh_and_load json o.server o.clock creds ids (still_pending awards) s in
      let same : ended.0.pending_awards ≡ s.pending_awards =
        refresh_games-awards json o.server o.clock creds _ [] _ s in
      refreshed-IsSound creds ids awards ended
        (unfold get_pending_awards in (ap (sort award_le) same ∙ e))
        (IsSound-awards c secret s ended.0 same h)

  with-IsSound :
      (awards : List Award) (found : Store × Option Credentials)
      → get_pending_awards found.0 ≡ awards
      → IsSound c secret found.0
      → IsSound c secret (flush_with json c secret md5_hex agents o awards found).0
  unfolding flush_with
  with-IsSound awards (s, none) e h = h
  with-IsSound awards (s, some creds) e h =
      elim (Option-cases (
        find_achievement_game_ids json none
          (map (λ (a : Award). a.achievement_id) (still_pending awards)) s)) [
            | inl broken ↦ rw (broken, flush_with) h
            | inr (ids, found_ids) ↦
                rw (found_ids, flush_with) (loaded-IsSound creds ids awards s e h)
          ]

  checked-IsSound :
      (s : Store)
      → IsSound c secret s
      → IsSound c secret (flush_checked json c secret md5_hex agents o (get_pending_awards s) s).0
  unfolding flush_checked
  checked-IsSound s h =
      let found = resolve_credentials json o.server o.clock o.configured o.password s in
      let same : found.0.pending_awards ≡ s.pending_awards =
        awards-resolve_credentials json o.server o.clock o.configured o.password s in
      elim (Bool-cases (any (has_status pending) (get_pending_awards s))) [
        | inl waiting ↦
            rw (waiting, flush_checked)
              (with-IsSound (get_pending_awards s) found
                (unfold get_pending_awards in ap (sort award_le) same)
                (IsSound-awards c secret s found.0 same h))
        | inr clear ↦ rw (clear, flush_checked) (purge-IsSound c secret s h)
      ]

  flush-sound_queue :
      (s : Store)
      → verify_chain c secret (get_pending_awards s) ≡ valid
      → flush_pending_awards json c secret md5_hex agents o s
        ≡ unless_empty
            (get_pending_awards s)
            s
            (flush_checked json c secret md5_hex agents o (get_pending_awards s) s)
  unfolding flush_pending_awards flush_verdict check_chain
  flush-sound_queue s h = rw (h, check_chain) refl

  -- Whatever the server, the clock and the configuration answer, and wherever an exception ends it, a
  -- run of the flush leaves a sound queue sound.
  pub flush-IsSound :
      (s : Store)
      → IsSound c secret s
      → IsSound c secret (flush_pending_awards json c secret md5_hex agents o s).0
  flush-IsSound s h =
      let run = flush_checked json c secret md5_hex agents o (get_pending_awards s) s in
      rw (flush-sound_queue s h.chain)
        (unless-IsSound (get_pending_awards s) s run h (checked-IsSound s h))
