-- ===== src/Auth.antt =====
-- linux/raofflineproxy/auth.py and the credentials that linux/raofflineproxy/storage.py keeps. What
-- the emulators' configuration files hold is an argument: the first token or password found.
pub mod Laws
use raoffline_proxy.Prelude.{
  ℕ, Bool, true, false, ◌&&◌, not, Option, none, some, List, [], ◌∷◌, Text, codes, text_eq,
  is_empty, if◌then◌else◌, get_or,
}
use raoffline_proxy.Json.{Json, obj, str, null, bool, field, end, Codec, get_field, is_true}
use raoffline_proxy.CacheKeys.{Prefix, prefix_text, auth_invalid_token}
use raoffline_proxy.CacheKeys.Key
use raoffline_proxy.Storage.{Store, Entry}
use raoffline_proxy.Storage.Cache.{get_cache, get_cache_by_prefix, upsert_cache, delete_cache}
use raoffline_proxy.Server.{HttpGet, Server}

pub record Credentials : Type 0 where
  pub user : Text
  pub token : Text

pub record Login : Type 0 where
  pub user : Text
  pub password : Text

-- `payload.get(k)` where it is a text that is not empty. The payloads are dicts, and RetroAchievements
-- and the proxy write texts there; anything else is read as missing.
unfoldable pub text_field : Text → Json → Option Text
text_field k payload = elim (get_field k null payload) [
  | some (str s) ↦ if is_empty s then none else some s
  | _ ↦ none
]

unfoldable pub mark_token_invalid : ℕ → Text → Store → Store
mark_token_invalid clock token s = upsert_cache clock auth_invalid_token token none none s

unfoldable pub is_token_invalid : Store → Text → Bool
is_token_invalid s token = elim (get_cache s auth_invalid_token) [
  | none ↦ false
  | some e ↦ text_eq e.response_body token
]

unfoldable pub clear_invalid_token : Store → Store
clear_invalid_token s = delete_cache auth_invalid_token s

module _ (json : Codec) where
  open json use {dumps, loads}

  -- The user and the token of the first login that is cached.
  unfoldable pub load_login_credentials : Store → Option Credentials
  unfolding text_field
  load_login_credentials s = elim (get_cache_by_prefix s (prefix_text Prefix.login)) [
    | none ↦ none
    | some e ↦ elim (loads e.response_body) [
      | none ↦ none
      | some payload ↦ elim (text_field (codes "User") payload) [
        | none ↦ none
        | some user ↦ elim (text_field (codes "Token") payload) [
          | none ↦ none
          | some token ↦ some (record { user = user; token = token })
        ]
      ]
    ]
  ]

  unfoldable pub login_value : Text → Text → Json
  login_value user token = obj (
      field (codes "Success") (bool true)
        (field (codes "User") (str user) (field (codes "Token") (str token) end)))

  unfoldable pub cache_token_credentials : ℕ → Credentials → Store → Store × Option Credentials
  cache_token_credentials clock creds s =
      if is_empty creds.user then (s, none) else if is_empty creds.token then (s, none) else (
        upsert_cache clock (Key.login creds.user) (dumps (login_value creds.user creds.token)) none
            none s,
        some creds,
      )

  -- The answer to `login2`, where it is a dict that says Success and has a token.
  unfoldable pub accepted_login : Login → Text → Option Credentials
  accepted_login l body = elim (loads body) [
    | none ↦ none
    | some payload ↦ elim (get_field (codes "Success") null payload) [
      | none ↦ none
      | some success ↦
          let user = get_or (text_field (codes "User") payload) l.user in
          let found = text_field (codes "Token") payload in
          if not (is_true success) then none else if is_empty user then none else elim found [
            | none ↦ none
            | some token ↦ some (record { user = user; token = token })
          ]
    ]
  ]

  unfoldable pub login_and_cache_token : Server → ℕ → Login → Store → Store × Option Credentials
  login_and_cache_token server clock l s = elim (server.login l.user l.password) [
    | HttpGet.body answer ↦ elim (accepted_login l answer) [
      | none ↦ (s, none)
      | some creds ↦ (upsert_cache clock (Key.login creds.user) answer none none s, some creds)
    ]
    | _ ↦ (s, none)
  ]

  -- A token of the configuration wins; then a cached login whose token is not known as invalid; then a
  -- fresh login; and at last the cached login all the same.
  unfoldable pub resolve_credentials :
      Server → ℕ → Option Credentials → Option Login → Store → Store × Option Credentials
  resolve_credentials server clock configured password s =
      let cached = load_login_credentials s in
      let usable : Bool = elim cached [
        | none ↦ false
        | some creds ↦ not (is_token_invalid s creds.token)
      ] in
      let login : Store × Option Credentials = elim password [
        | none ↦ (s, cached)
        | some l ↦
            let (s', fresh) = login_and_cache_token server clock l s in
            (s', elim fresh [ none ↦ cached | some creds ↦ some creds ])
      ] in
      elim configured [
        | some creds ↦ cache_token_credentials clock creds s
        | none ↦ if usable then (s, cached) else login
      ]
