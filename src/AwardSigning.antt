-- ===== src/AwardSigning.antt =====
-- linux/raofflineproxy/award_signing.py. The cryptography of `hashlib`, `hmac`, `base64` and
-- `secrets` is a parameter: a digest and a signature are functions of their input.
use raoffline_proxy.Prelude.{Option, none, some, Bool, true, ◌≡◌, refl, Text, text_eq, text_eq_refl}

pub record Crypto : Type 0 where
  -- `hashlib.sha256(value).hexdigest()`
  pub sha256_hex : Text → Text
  -- `base64(hmac-sha256(secret, data))`
  pub hmac_base64 : Text → Text → Text
  -- `base64(…)`
  pub base64 : Text → Text

-- The secret file: what is in it, if it exists, and the bytes that `secrets` draws if it does not.
unfoldable pub load_or_create_secret : Option Text → Text → Text × Option Text
load_or_create_secret (some secret) drawn = (secret, some secret)
load_or_create_secret none drawn = (drawn, some drawn)

module _ (c : Crypto) (secret : Text) where
  unfoldable pub sign_award : Text → Text
  sign_award input = c.hmac_base64 secret input

  unfoldable pub verify_award : Text → Text → Bool
  unfolding sign_award text_eq
  verify_award input signature = text_eq (sign_award input) signature

  unfoldable pub public_key_base64 : Text
  public_key_base64 = c.base64 (c.sha256_hex secret)

  -- A signature that was made with the secret is accepted with it.
  pub verify-sign : (input : Text) → verify_award input (sign_award input) ≡ true
  unfolding verify_award
  verify-sign input = text_eq_refl (sign_award input)

-- Once a secret is there, every later load gives it, whatever is drawn: signatures stay valid.
pub load-load :
    (file : Option Text) (drawn drawn' : Text)
    → let first = load_or_create_secret file drawn in load_or_create_secret first.1 drawn' ≡ first
unfolding load_or_create_secret
load-load none drawn drawn' = refl
load-load (some secret) drawn drawn' = refl
