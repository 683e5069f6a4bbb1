-- ===== src/Auth/Laws.antt =====
-- Which credentials linux/raofflineproxy/auth.py gives, and that it leaves the awards alone.
use raoffline_proxy.Prelude.{ℕ, ◌≡◌, refl, false, Option, none, Text, arith, text_eq, text_eq_refl}
use raoffline_proxy.Json.{Codec}
use raoffline_proxy.CacheKeys.{auth_invalid_token}
use raoffline_proxy.Storage.{Store}
use raoffline_proxy.Storage.Cache.{upsert_cache, upsert_cache_json, overwrite}
use raoffline_proxy.Storage.CacheLaws.{get_cache-upsert, get_cache-delete, written}
use raoffline_proxy.Server.{Server}
use raoffline_proxy.Auth.{
  Credentials, Login, mark_token_invalid, is_token_invalid, clear_invalid_token,
  cache_token_credentials, login_and_cache_token, resolve_credentials,
}

pub awards-upsert_cache :
    (clock : ℕ) (key body : Text) (cached_at : Option ℕ) (source : Option Text) (s : Store)
    → (upsert_cache clock key body cached_at source s).pending_awards ≡ s.pending_awards
unfolding upsert_cache upsert_cache_json
awards-upsert_cache clock key body cached_at source s = refl

-- A token that is marked is invalid until the mark is cleared; then no token is.
pub token_mark :
    (clock : ℕ) (token other : Text) (s : Store)
    → (is_token_invalid (mark_token_invalid clock token s) other ≡ text_eq token other)
      × (is_token_invalid (clear_invalid_token s) other ≡ false)
unfolding is_token_invalid mark_token_invalid clear_invalid_token upsert_cache
token_mark clock token other s =
    let marked = get_cache-upsert s auth_invalid_token token auth_invalid_token none clock in
    let cleared = get_cache-delete s auth_invalid_token auth_invalid_token in
    (
      rw (marked, is_token_invalid)
          (rw (text_eq_refl auth_invalid_token) (unfold written overwrite in ground arith)),
      rw (cleared, is_token_invalid) (rw (text_eq_refl auth_invalid_token)),
    )

module _ (json : Codec) where
  -- Resolving credentials never touches the pending awards.
  pub awards-resolve_credentials :
      (server : Server) (clock : ℕ) (configured : Option Credentials) (password : Option Login)
      (s : Store)
      → (resolve_credentials json server clock configured password s).0.pending_awards
        ≡ s.pending_awards
  unfolding resolve_credentials cache_token_credentials login_and_cache_token upsert_cache
      upsert_cache_json
  awards-resolve_credentials server clock configured password s = ground arith
