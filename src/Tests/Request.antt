-- ===== src/Tests/Request.antt =====
-- The request of an award.
use raoffline_proxy.Prelude.{
  ◌≡◌, refl, false, some, [], ◌∷◌, Text, codes, arith, any, ltb, not, text_eq, is_empty,
}
use raoffline_proxy.CacheKeys.Decimal.{is_digits, int_of}
use raoffline_proxy.FormParams.{extract_form_param}
use raoffline_proxy.FormParams.Parse.{parse_qsl}
use raoffline_proxy.FormParams.Quote.{unquote_plus}
use raoffline_proxy.FormParams.Replace.{IsBytes, IsSimple}
use raoffline_proxy.FormParams.Given.{IsRead, name-IsKey}
use raoffline_proxy.Storage.{Award}
use raoffline_proxy.AwardSigning.{public_key_base64}
use raoffline_proxy.Flusher.Award.{
  build_award_request_body, int_or, clamp_award_offset_seconds, seconds_between,
}
use raoffline_proxy.Flusher.Award.Body.{
  IsSendable, offset_of, offset_hash, chain_reading, offset_reading, token_reading,
  build_award_request_body-IsRead,
}
use raoffline_proxy.Tests.Data.{toy, secret, first_award}

-- The first award as a POST.
abbrev posted : Award
posted = record first_award { request_body = codes "a=5&t=old" }

abbrev md5_zero : Text → Text
md5_zero s = codes "0"

small-IsBytes : (s : Text) → any (λ c. not (ltb c 256)) s ≡ false → IsBytes s
unfolding any
small-IsBytes [] h = tt
small-IsBytes (c ∷ s) h = (ground arith, small-IsBytes s (ground arith))

posted-IsSimple : IsSimple (parse_qsl posted.request_body)
unfolding parse_qsl unquote_plus any
posted-IsSimple = (
  (name-IsKey (codes "a") refl refl, small-IsBytes (codes "5") refl),
  ((name-IsKey (codes "t") refl refl, small-IsBytes (codes "old") refl), tt),
)

posted-IsSendable : IsSendable toy secret md5_zero posted (codes "new")
unfolding any is_empty public_key_base64
posted-IsSendable = record {
  simple = posted-IsSimple;
  token_bytes = small-IsBytes (codes "new") refl;
  token_given = refl;
  hashed = refl;
  payload_bytes = small-IsBytes posted.payload_hash refl;
  prev_bytes = small-IsBytes posted.prev_hash refl;
  signature_bytes = small-IsBytes posted.signature refl;
  key_bytes = small-IsBytes secret refl;
  md5_bytes = λ s. small-IsBytes (codes "0") refl;
}

build_award_request_body-IsRead_example :
    (body : Text) × (build_award_request_body toy secret md5_zero posted 60007 (some (codes "new"))
      ≡ some body)
    × IsRead body (
        chain_reading toy secret md5_zero posted (
          offset_reading toy secret md5_zero
            (offset_of posted 60007)
            (offset_hash toy secret md5_zero posted 5 0 (offset_of posted 60007))
            (token_reading toy secret md5_zero posted (codes "new"))))
unfolding clamp_award_offset_seconds int_or seconds_between extract_form_param is_digits int_of
    text_eq
build_award_request_body-IsRead_example =
    build_award_request_body-IsRead toy secret md5_zero posted 60007 5 0 (codes "new")
      posted-IsSendable refl refl refl
