-- ===== src/Flusher/Award/Body.antt =====
-- The parameters of the request that `build_award_request_body` of linux/raofflineproxy/flusher.py makes.
use raoffline_proxy.Prelude.{
  ℕ, ◌≡◌, refl, ap, ◌∙◌, true, false, some, [], ◌∷◌, Text, codes, arith, any, text_eq, is_empty,
  ◌==◌, get_or,
}
use raoffline_proxy.CacheKeys.Decimal.{decimal, all_digits, is_digits, is_digits-decimal}
use raoffline_proxy.FormParams.{extract_form_param, replace_or_append_form_param}
use raoffline_proxy.FormParams.Parse.{parse_qsl}
use raoffline_proxy.FormParams.Quote.{unquote_plus}
use raoffline_proxy.FormParams.Replace.{IsBytes, IsSimple}
use raoffline_proxy.FormParams.Given.{Reading, IsRead, overridden, replace-IsRead, name-IsKey}
use raoffline_proxy.Storage.{Award}
use raoffline_proxy.AwardSigning.{Crypto, public_key_base64}
use raoffline_proxy.Flusher.Award.{
  with_token, with_offset, with_chain, build_award_request_body, compute_validation_hash, int_or,
  clamp_award_offset_seconds, seconds_between,
}

digits-IsBytes : (s : Text) → all_digits s ≡ true → IsBytes s
unfolding all_digits
digits-IsBytes [] h = tt
digits-IsBytes (c ∷ s) h = (ground arith, digits-IsBytes s (ground arith))

decimal-IsBytes : (n : ℕ) → IsBytes (decimal n)
decimal-IsBytes n = digits-IsBytes (decimal n) (digits (decimal n) (is_digits-decimal n))
  where
    digits : (s : Text) → is_digits s ≡ true → all_digits s ≡ true
    digits s h = unfold is_digits in ground arith

abbrev pub offset_of : Award → ℕ → ℕ
offset_of a now = clamp_award_offset_seconds (seconds_between now a.queued_at)

module _ (c : Crypto) (secret : Text) (md5_hex : Text → Text) where
  -- The parts of the award that the request carries are single bytes, and its body needs no escapes.
  pub record IsSendable (a : Award) (token : Text) : Type 0 where
    pub simple : IsSimple (parse_qsl a.request_body)
    pub token_bytes : IsBytes token
    pub token_given : is_empty token ≡ false
    pub hashed : is_empty a.payload_hash ≡ false
    pub payload_bytes : IsBytes a.payload_hash
    pub prev_bytes : IsBytes a.prev_hash
    pub signature_bytes : IsBytes a.signature
    pub key_bytes : IsBytes (public_key_base64 c secret)
    pub md5_bytes : (s : Text) → IsBytes (md5_hex s)

  -- The parameters after the token, after the offset, and after the chain.
  abbrev pub token_reading : Award → Text → Reading
  token_reading a token = overridden (codes "t") token (extract_form_param a.request_body)

  abbrev pub offset_reading : ℕ → Text → Reading → Reading
  offset_reading offset hash r =
      overridden (codes "o") (decimal offset) (overridden (codes "v") hash r)

  abbrev pub chain_reading : Award → Reading → Reading
  chain_reading a r = overridden (codes "ra_chain_pubkey") (public_key_base64 c secret) (
      overridden (codes "ra_chain_sig") a.signature (
        overridden (codes "ra_chain_prev_hash") a.prev_hash
          (overridden (codes "ra_chain_payload_hash") a.payload_hash r)))

  with_token-IsRead :
      (a : Award) (token : Text)
      → IsSendable a token
      → IsRead (with_token (some token) a.request_body) (token_reading a token)
  unfolding with_token
  with_token-IsRead a token h = rw h.token_given (
      replace-IsRead a.request_body (codes "t") token (extract_form_param a.request_body)
        (name-IsKey (codes "t") (unfold any in refl) (unfold unquote_plus in refl)) h.token_bytes
        (record { simple = h.simple; reads = λ k. refl }))

  with_chain-IsRead :
      (a : Award) (token body : Text) (r : Reading)
      → IsSendable a token
      → IsRead body r
      → IsRead (with_chain c secret md5_hex a body) (chain_reading a r)
  unfolding with_chain any unquote_plus
  with_chain-IsRead a token body r h b =
      let b1 =
        replace-IsRead body (codes "ra_chain_payload_hash") a.payload_hash r
          (name-IsKey (codes "ra_chain_payload_hash") refl refl) h.payload_bytes b in
      let b2 =
        replace-IsRead _ (codes "ra_chain_prev_hash") a.prev_hash _
          (name-IsKey (codes "ra_chain_prev_hash") refl refl) h.prev_bytes b1 in
      let b3 =
        replace-IsRead _ (codes "ra_chain_sig") a.signature _
          (name-IsKey (codes "ra_chain_sig") refl refl) h.signature_bytes b2 in
      rw h.hashed (
        replace-IsRead _ (codes "ra_chain_pubkey") (public_key_base64 c secret) _
          (name-IsKey (codes "ra_chain_pubkey") refl refl) h.key_bytes b3)

  -- The hash that the server checks the offset with.
  abbrev pub offset_hash : Award → ℕ → ℕ → ℕ → Text
  offset_hash a achievement hardcore offset =
      compute_validation_hash md5_hex achievement
        (get_or (extract_form_param a.request_body (codes "u")) []) hardcore offset

  with_offset-IsRead :
      (a : Award) (token body : Text) (offset achievement hardcore : ℕ)
      → IsSendable a token
      → IsRead body (token_reading a token)
      → (offset == 0) ≡ false
      → int_or (extract_form_param a.request_body (codes "a")) a.achievement_id ≡ some achievement
      → int_or (extract_form_param a.request_body (codes "h")) 0 ≡ some hardcore
      → (sent : Text) × (with_offset c secret md5_hex a offset body ≡ some sent)
        × IsRead sent (
            offset_reading offset
              (offset_hash a achievement hardcore offset)
              (token_reading a token))
  unfolding with_offset any unquote_plus text_eq
  with_offset-IsRead a token body offset achievement hardcore h b late named mode =
      let hash = offset_hash a achievement hardcore offset in
      let bytes : IsBytes hash = unfold compute_validation_hash in h.md5_bytes _ in
      let named' : int_or (extract_form_param body (codes "a")) a.achievement_id
          ≡ some achievement =
        ap (λ x. int_or x a.achievement_id) (b.reads (codes "a")) ∙ named in
      let mode' : int_or (extract_form_param body (codes "h")) 0 ≡ some hardcore =
        ap (λ x. int_or x 0) (b.reads (codes "h")) ∙ mode in
      let user : extract_form_param body (codes "u")
          ≡ extract_form_param a.request_body (codes "u") =
        b.reads (codes "u") in
      let b1 =
        replace-IsRead body (codes "v") hash (token_reading a token)
          (name-IsKey (codes "v") refl refl) bytes b in
      let b2 =
        replace-IsRead _ (codes "o") (decimal offset) _ (name-IsKey (codes "o") refl refl)
          (decimal-IsBytes offset) b1 in
      (
        replace_or_append_form_param (replace_or_append_form_param body (codes "v") hash)
            (codes "o") (decimal offset),
        rw (late, named', mode', user) refl,
        b2,
      )

  -- The request of a hashed award that was queued at least a second ago carries the parameters of the
  -- queued body, with the current token, the offset with its hash, and the links of the chain in place
  -- of what the body has under their names.
  pub build_award_request_body-IsRead :
      (a : Award) (now achievement hardcore : ℕ) (token : Text)
      → IsSendable a token
      → (offset_of a now == 0) ≡ false
      → int_or (extract_form_param a.request_body (codes "a")) a.achievement_id ≡ some achievement
      → int_or (extract_form_param a.request_body (codes "h")) 0 ≡ some hardcore
      → (body : Text) × (build_award_request_body c secret md5_hex a now (some token) ≡ some body)
        × IsRead body (
            chain_reading a (
              offset_reading
                (offset_of a now)
                (offset_hash a achievement hardcore (offset_of a now))
                (token_reading a token)))
  unfolding build_award_request_body
  build_award_request_body-IsRead a now achievement hardcore token h late named mode =
      let offset = offset_of a now in
      let (body, sent, reads) =
        with_offset-IsRead a token (with_token (some token) a.request_body) offset achievement
          hardcore h (with_token-IsRead a token h) late named mode in
      (
        with_chain c secret md5_hex a body,
        rw (sent, build_award_request_body) refl,
        with_chain-IsRead a token body _ h reads,
      )
