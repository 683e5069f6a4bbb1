-- ===== src/Flusher/Repair.antt =====
-- What `verify_chain` accepts and what `repair_pending_chain` achieves:
-- linux/raofflineproxy/flusher.py.
use raoffline_proxy.Prelude.{
  ℕ, ◌+◌, ◌≡◌, ◌↔◌, refl, ap, true, false, Option, none, some, List, [], ◌∷◌, ◌++◌, map, Text,
  text_eq, text_eq_iff, is_empty, Bool-cases, inl, inr, arith, All, last, Option-cases,
}
use raoffline_proxy.Storage.{Award, Status}
use raoffline_proxy.AwardSigning.{Crypto, verify_award, verify-sign}
use raoffline_proxy.Flusher.Chain.{
  valid, link_of, sign_input, canonical_payload, check_award, verify_from, verify_chain, resign,
  repair_from, repair_pending_chain,
}

-- What an award keeps when it is signed again.
pub record Content : Type 0 where
  pub id : Option ℕ
  pub achievement_id : ℕ
  pub query_string : Text
  pub request_body : Text
  pub user_agent : Text
  pub queued_at : ℕ
  pub retry_count : ℕ
  pub last_error : Option Text
  pub status : Status
  pub payload_hash : Text

unfoldable pub content : Award → Content
content a = record {
  id = a.id;
  achievement_id = a.achievement_id;
  query_string = a.query_string;
  request_body = a.request_body;
  user_agent = a.user_agent;
  queued_at = a.queued_at;
  retry_count = a.retry_count;
  last_error = a.last_error;
  status = a.status;
  payload_hash = a.payload_hash;
}

-- The last award, or the one before the list.
abbrev pub newest : Option Award → List Award → Option Award
newest previous [] = previous
newest previous (a ∷ later) = newest (some a) later

newest-last : (b : Award) (later : List Award) → newest (some b) later ≡ last (b ∷ later)
unfolding last
newest-last b [] = refl
newest-last b (d ∷ later) = newest-last d later

pub newest-none : (awards : List Award) → newest none awards ≡ last awards
unfolding last
newest-none [] = refl
newest-none (b ∷ later) = newest-last b later

module _ (c : Crypto) (secret : Text) where
  open c use {sha256_hex}

  -- A hashed award has the hash of its contents.
  pub record IsIntact (a : Award) : Type 0 where
    pub hash : is_empty a.payload_hash ≡ false → a.payload_hash ≡ sha256_hex (canonical_payload a)

  -- A hashed award is intact, names the award before it and carries a signature of both.
  pub record IsLinked (previous : Option Award) (a : Award) : Type 0 where
    pub hash : is_empty a.payload_hash ≡ false → a.payload_hash ≡ sha256_hex (canonical_payload a)
    pub link : is_empty a.payload_hash ≡ false → a.prev_hash ≡ link_of previous
    pub signed :
        is_empty a.payload_hash ≡ false
        → verify_award c secret (sign_input a.payload_hash a.prev_hash) a.signature ≡ true

  -- The chain, stated without the order of the checks.
  abbrev pub IsChain : Option Award → List Award → Type 0
  IsChain previous [] = Unit
  IsChain previous (a ∷ later) = IsLinked previous a × IsChain (some a) later

  check_award_sound :
      (previous : Option Award) (a : Award)
      → check_award c secret previous a ≡ none
      → IsLinked previous a
  unfolding check_award
  check_award_sound previous a h = record {
    hash = λ e. ground (arith, text_eq_iff a.payload_hash (sha256_hex (canonical_payload a)));
    link = λ e. ground (arith, text_eq_iff a.prev_hash (link_of previous));
    signed = λ e. ground arith;
  }

  check_award_complete :
      (previous : Option Award) (a : Award)
      → IsLinked previous a
      → check_award c secret previous a ≡ none
  unfolding check_award
  check_award_complete previous a l = ground (
    arith,
    l.hash,
    l.link,
    l.signed,
    text_eq_iff a.payload_hash (sha256_hex (canonical_payload a)),
    text_eq_iff a.prev_hash (link_of previous),
  )

  verify_from_sound :
      (i : ℕ) (previous : Option Award) (awards : List Award)
      → verify_from c secret i previous awards ≡ valid
      → IsChain previous awards
  unfolding verify_from
  verify_from_sound i previous [] h = tt
  verify_from_sound i previous (a ∷ later) h =
      elim (Option-cases (check_award c secret previous a)) [
        | inl fine ↦ (
          check_award_sound previous a fine,
          verify_from_sound (i + 1) (some a) later (rw (fine, verify_from) at h),
        )
        | inr (reason, bad) ↦ absurd (cc (h, bad))
      ]

  verify_from_complete :
      (i : ℕ) (previous : Option Award) (awards : List Award)
      → IsChain previous awards
      → verify_from c secret i previous awards ≡ valid
  unfolding verify_from
  verify_from_complete i previous [] h = refl
  verify_from_complete i previous (a ∷ later) h =
      rw (check_award_complete previous a h.0, verify_from)
        (verify_from_complete (i + 1) (some a) later h.1)

  -- The verification passes exactly when every hashed award is intact, linked and signed.
  pub verify_iff :
      (awards : List Award) → (verify_chain c secret awards ≡ valid) ↔ IsChain none awards
  unfolding verify_chain
  verify_iff awards = (verify_from_sound 0 none awards, verify_from_complete 0 none awards)

  content-resign :
      (previous : Option Award) (now : ℕ) (a : Award)
      → content (resign c secret previous now a) ≡ content a
  unfolding resign content
  content-resign previous now a = refl

  resign-IsLinked :
      (previous : Option Award) (now : ℕ) (a : Award)
      → IsIntact a
      → IsLinked previous (resign c secret previous now a)
  unfolding resign canonical_payload
  resign-IsLinked previous now a h = record {
    hash = h.hash;
    link = λ e. refl;
    signed = λ e. verify-sign c secret (sign_input a.payload_hash (link_of previous));
  }

  -- What a repair gives: a chain of the same awards in the same order.
  pub record IsRepaired (previous : Option Award) (awards repaired : List Award) : Type 0 where
    pub chain : IsChain previous repaired
    pub same : map content repaired ≡ map content awards

  repair_from-total :
      (now : ℕ → ℕ) (i : ℕ) (previous : Option Award) (awards : List Award)
      → All IsIntact awards
      → (r : List Award) × (repair_from c secret now i previous awards ≡ some r)
        × IsRepaired previous awards r
  unfolding repair_from
  repair_from-total now i previous [] h = ([], refl, record { chain = tt; same = refl })
  repair_from-total now i previous (a ∷ later) h = elim (Bool-cases (is_empty a.payload_hash)) [
    | inl plain ↦
        let (r, done, fixed) = repair_from-total now (i + 1) (some a) later h.1 in
        (
          a ∷ r,
          rw (plain, done),
          record {
            chain = (record { hash = λ e. cc; link = λ e. cc; signed = λ e. cc }, fixed.chain);
            same = ap (◌∷◌ (content a)) fixed.same;
          },
        )
    | inr hashed ↦
        let s = resign c secret previous (now i) a in
        let (r, done, fixed) = repair_from-total now (i + 1) (some s) later h.1 in
        let intact : text_eq a.payload_hash (sha256_hex (canonical_payload a)) ≡ true =
          (text_eq_iff a.payload_hash (sha256_hex (canonical_payload a))).1 (h.0.hash hashed) in
        (
          s ∷ r,
          rw (hashed, intact, done),
          record {
            chain = (resign-IsLinked previous (now i) a h.0, fixed.chain);
            same = rw (content-resign previous (now i) a, fixed.same);
          },
        )
  ]

  repair_from-IsIntact :
      (now : ℕ → ℕ) (i : ℕ) (previous : Option Award) (awards : List Award) (r : List Award)
      → repair_from c secret now i previous awards ≡ some r
      → All IsIntact awards
  unfolding repair_from
  repair_from-IsIntact now i previous [] r h = tt
  repair_from-IsIntact now i previous (a ∷ later) r h =
      elim (Bool-cases (is_empty a.payload_hash)) [
        | inl plain ↦ elim (Option-cases (repair_from c secret now (i + 1) (some a) later)) [
          | inl stop ↦ absurd (ground arith)
          | inr (r', e) ↦
              (record { hash = λ x. cc }, repair_from-IsIntact now (i + 1) (some a) later r' e)
        ]
        | inr hashed ↦
            let s = resign c secret previous (now i) a in
            elim (Bool-cases (text_eq a.payload_hash (sha256_hex (canonical_payload a)))) [
              | inr bad ↦ absurd (ground arith)
              | inl good ↦ elim (Option-cases (repair_from c secret now (i + 1) (some s) later)) [
                | inl stop ↦ absurd (ground arith)
                | inr (r', e) ↦ (
                  record { hash = λ x. (text_eq_iff a.payload_hash _).0 good },
                  repair_from-IsIntact now (i + 1) (some s) later r' e,
                )
              ]
            ]
      ]

  -- If every hashed award is intact, the repair succeeds, its chain passes the verification, and the
  -- awards keep their order and all fields but the previous hash, the signature and its time.
  pub repair-total :
      (now : ℕ → ℕ) (awards : List Award)
      → All IsIntact awards
      → (r : List Award) × (repair_pending_chain c secret now awards ≡ some r)
        × (verify_chain c secret r ≡ valid)
        × (map content r ≡ map content awards)
  unfolding repair_pending_chain
  repair-total now awards h =
      let (r, done, fixed) = repair_from-total now 0 none awards h in
      (r, done, (verify_iff r).1 fixed.chain, fixed.same)

  -- Whatever a repair returns passes the verification and holds the same awards; and it returns
  -- something only if every hashed award is intact.
  pub repair-verifies :
      (now : ℕ → ℕ) (awards r : List Award)
      → repair_pending_chain c secret now awards ≡ some r
      → All IsIntact awards
        × (verify_chain c secret r ≡ valid)
        × (map content r ≡ map content awards)
  unfolding repair_pending_chain
  repair-verifies now awards r h =
      let intact = repair_from-IsIntact now 0 none awards r h in
      let (r', done, fine, same) = repair-total now awards intact in
      let e : r' ≡ r = ground arith in (intact, rw e at fine, rw e at same)

  -- An award that is linked to the newest one prolongs the chain.
  pub IsChain-snoc :
      (previous : Option Award) (awards : List Award) (a : Award)
      → IsChain previous awards
      → IsLinked (newest previous awards) a
      → IsChain previous (awards ++ a ∷ [])
  IsChain-snoc previous [] a h l = (l, tt)
  IsChain-snoc previous (b ∷ later) a h l = (h.0, IsChain-snoc (some b) later a h.1 l)
