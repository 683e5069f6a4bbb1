-- ===== src/Flusher/Chain.antt =====
-- The hash chain over the pending awards: `canonical_payload`, `verify_chain` and
-- `repair_pending_chain` of linux/raofflineproxy/flusher.py.
use raoffline_proxy.Prelude.{
  ℕ, ◌+◌, not, Option, none, some, List, [], ◌∷◌, ◌++◌, Text, codes, text_eq, is_empty,
  if◌then◌else◌,
}
use raoffline_proxy.CacheKeys.Decimal.{decimal}
use raoffline_proxy.Storage.{Award}
use raoffline_proxy.AwardSigning.{Crypto, sign_award, verify_award}

abbrev pub genesis_hash : Text
genesis_hash = codes "genesis"

-- `f"{achievementId}|{queryString}|{requestBody}|{queuedAt}"`
unfoldable pub canonical_payload : Award → Text
canonical_payload a =
    decimal a.achievement_id
    ++ (124 ∷ (a.query_string ++ (124 ∷ (a.request_body ++ (124 ∷ decimal a.queued_at)))))

pub data Reason : Type 0 where
  payload_mismatch link_broken invalid_signature : Reason

pub data Verdict : Type 0 where
  valid : Verdict
  invalid : Reason → ℕ → Verdict

-- The hash that the award after `previous` has to name.
unfoldable pub link_of : Option Award → Text
unfolding is_empty
link_of none = genesis_hash
link_of (some a) = if is_empty a.payload_hash then genesis_hash else a.payload_hash

-- `f"{payloadHash}:{prevHash}"`
abbrev pub sign_input : Text → Text → Text
sign_input payload prev = payload ++ 58 ∷ prev

module _ (c : Crypto) (secret : Text) where
  open c use {sha256_hex}

  -- The checks of one award, in the order of the code; awards without a hash are passed over.
  unfoldable pub check_award : Option Award → Award → Option Reason
  unfolding link_of is_empty text_eq
  check_award previous a =
      if is_empty a.payload_hash
      then none
      else if not (text_eq a.payload_hash (sha256_hex (canonical_payload a)))
      then some payload_mismatch
      else if not (text_eq a.prev_hash (link_of previous))
      then some link_broken
      else if not (verify_award c secret (sign_input a.payload_hash a.prev_hash) a.signature)
      then some invalid_signature
      else none

  unfoldable pub verify_from : ℕ → Option Award → List Award → Verdict
  unfolding check_award
  verify_from index previous [] = valid
  verify_from index previous (a ∷ later) =
      let rest = verify_from (index + 1) (some a) later in
      elim (check_award previous a) [ none ↦ rest | some reason ↦ invalid reason index ]

  unfoldable pub verify_chain : List Award → Verdict
  unfolding verify_from
  verify_chain awards = verify_from 0 none awards

  -- The award signed again behind `previous`; `now index` is the clock at that award.
  unfoldable pub resign : Option Award → ℕ → Award → Award
  unfolding link_of is_empty sign_award
  resign previous now a = record a {
    prev_hash = link_of previous;
    signature = sign_award c secret (sign_input a.payload_hash (link_of previous));
    signed_at = now;
  }

  -- `none` if some award does not match its hash: it was altered, and no new signature is due.
  unfoldable pub repair_from : (ℕ → ℕ) → ℕ → Option Award → List Award → Option (List Award)
  unfolding resign text_eq
  repair_from now index previous [] = some []
  repair_from now index previous (a ∷ later) =
      let skipped = repair_from now (index + 1) (some a) later in
      let signed = resign previous (now index) a in
      let rest = repair_from now (index + 1) (some signed) later in
      if is_empty a.payload_hash
      then elim skipped [ none ↦ none | some r ↦ some (a ∷ r) ]
      else if not (text_eq a.payload_hash (sha256_hex (canonical_payload a)))
      then none
      else elim rest [ none ↦ none | some r ↦ some (signed ∷ r) ]

  unfoldable pub repair_pending_chain : (ℕ → ℕ) → List Award → Option (List Award)
  unfolding repair_from
  repair_pending_chain now awards = repair_from now 0 none awards
