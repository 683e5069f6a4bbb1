-- ===== src/Flusher/Award.antt =====
-- The request of one award: `is_hardcore_award`, the offset and `build_award_request_body` of
-- linux/raofflineproxy/flusher.py. MD5 is a parameter.
pub mod Body
use raoffline_proxy.Prelude.{
  ℕ, ◌-◌, ◌/◌, min, Bool, false, not, Option, none, some, [], ◌++◌, Text, codes, text_eq, is_empty,
  leb, ◌==◌, if◌then◌else◌, get_or,
}
use raoffline_proxy.Prelude.Int.{ℤ, pos, negsuc}
use raoffline_proxy.CacheKeys.Decimal.{decimal, is_digits, int_of}
use raoffline_proxy.FormParams.{
  after_mark, last_value, extract_form_param, replace_or_append_form_param, is_text,
}
use raoffline_proxy.FormParams.Parse.{parse_qsl}
use raoffline_proxy.Storage.{Award}
use raoffline_proxy.AwardSigning.{Crypto, public_key_base64}

-- MAX_AWARD_OFFSET_SECONDS: 14 days
abbrev pub max_award_offset : ℕ
max_award_offset = 1209600

-- The query string decides if it has "h" at all, and else the body.
unfoldable pub is_hardcore_award : Award → Bool
unfolding after_mark last_value parse_qsl extract_form_param
is_hardcore_award a =
    let query = parse_qsl (get_or (after_mark 63 a.query_string) []) in
    elim (last_value (codes "h") query) [
      | some h ↦ text_eq h (codes "1")
      | none ↦ is_text (extract_form_param a.request_body (codes "h")) (codes "1")
    ]

-- `int(millis / 1000)`: cut towards zero.
unfoldable pub seconds_between : ℕ → ℕ → ℤ
seconds_between now queued =
    if leb queued now
    then pos ((now - queued) / 1000)
    else (let late = (queued - now) / 1000 in if late == 0 then pos 0 else negsuc (late - 1))

unfoldable pub clamp_award_offset_seconds : ℤ → ℕ
clamp_award_offset_seconds (pos n) = min max_award_offset n
clamp_award_offset_seconds (negsuc n) = 0

abbrev same_int : ℤ → ℕ → Bool
same_int (pos n) m = n == m
same_int (negsuc n) m = false

-- The offset, and whether it was clamped.
unfoldable pub award_offset_seconds : Award → ℕ → ℕ × Bool
unfolding seconds_between clamp_award_offset_seconds
award_offset_seconds a now =
    let raw = seconds_between now a.queued_at in
    let offset = clamp_award_offset_seconds raw in (offset, not (same_int raw offset))

-- The text that the hash is of: `seconds` is counted only if it is not 0.
unfoldable pub validation_input : ℕ → Text → ℕ → ℕ → Text
validation_input achievement user hardcore seconds =
    decimal achievement
    ++ (user
        ++ (decimal hardcore
            ++ (if seconds == 0 then [] else decimal achievement ++ decimal seconds)))

unfoldable pub compute_validation_hash : (Text → Text) → ℕ → Text → ℕ → ℕ → Text
unfolding validation_input
compute_validation_hash md5_hex achievement user hardcore seconds =
    md5_hex (validation_input achievement user hardcore seconds)

-- `int(text or d)`; a text that is no number raises.
unfoldable pub int_or : Option Text → ℕ → Option ℕ
int_or none d = some d
int_or (some s) d = if is_empty s then some d else if is_digits s then some (int_of s) else none

-- `body` with the token, if there is one.
unfoldable pub with_token : Option Text → Text → Text
unfolding replace_or_append_form_param
with_token none body = body
with_token (some token) body =
    if is_empty token then body else replace_or_append_form_param body (codes "t") token

module _ (c : Crypto) (secret : Text) (md5_hex : Text → Text) where
  -- `body` with the hash and the offset, if there is an offset.
  unfoldable pub with_offset : Award → ℕ → Text → Option Text
  unfolding int_or
  with_offset a offset body =
      let user = get_or (extract_form_param body (codes "u")) [] in
      let rest : Option Text =
        elim (int_or (extract_form_param body (codes "a")) a.achievement_id) [
          | none ↦ none
          | some achievement ↦ elim (int_or (extract_form_param body (codes "h")) 0) [
            | none ↦ none
            | some hardcore ↦ some (
                replace_or_append_form_param
                  (replace_or_append_form_param body (codes "v")
                    (compute_validation_hash md5_hex achievement user hardcore offset))
                  (codes "o") (decimal offset))
          ]
        ] in
      if offset == 0 then some body else rest

  -- `body` with the links of the chain, if the award is hashed.
  unfoldable pub with_chain : Award → Text → Text
  with_chain a body =
      if is_empty a.payload_hash
      then body
      else replace_or_append_form_param
          (replace_or_append_form_param
            (replace_or_append_form_param
              (replace_or_append_form_param body (codes "ra_chain_payload_hash") a.payload_hash)
              (codes "ra_chain_prev_hash") a.prev_hash)
            (codes "ra_chain_sig") a.signature)
          (codes "ra_chain_pubkey") (public_key_base64 c secret)

  -- `none` if a number in the body cannot be read, which raises.
  unfoldable pub build_award_request_body : Award → ℕ → Option Text → Option Text
  unfolding with_token with_offset with_chain clamp_award_offset_seconds seconds_between
  build_award_request_body a now token =
      let offset = clamp_award_offset_seconds (seconds_between now a.queued_at) in
      elim (with_offset a offset (with_token token a.request_body)) [
        | none ↦ none
        | some body ↦ some (with_chain a body)
      ]
