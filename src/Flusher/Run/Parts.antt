-- ===== src/Flusher/Run/Parts.antt =====
-- What the loop of `flush_pending_awards` in linux/raofflineproxy/flusher.py leaves of an award as it
-- is: all that the hash chain and the order of the awards are made of.
use raoffline_proxy.Prelude.{
  ℕ, ◌+◌, ◌≡◌, refl, ap, Option, none, some, List, [], ◌∷◌, map, Text, arith, find, Bool-cases, inl,
  inr, ◌==◌, get_or,
}
use raoffline_proxy.Prelude.Sorted.{sort, insert}
use raoffline_proxy.Storage.{Award, Status, Store, next_json_id}
use raoffline_proxy.Storage.Awards.{
  award_id, award_le, get_pending_awards, is_for, put_award, upsert_pending_award,
  update_pending_award, warning_achievement_id,
}
use raoffline_proxy.AwardSigning.{Crypto}
use raoffline_proxy.Flusher.Chain.{
  check_award, verify_from, verify_chain, canonical_payload, link_of,
}

pub record ChainPart : Type 0 where
  pub id : Option ℕ
  pub achievement_id : ℕ
  pub query_string : Text
  pub request_body : Text
  pub queued_at : ℕ
  pub payload_hash : Text
  pub prev_hash : Text
  pub signature : Text

abbrev pub chain_part : Award → ChainPart
chain_part a = record {
  id = a.id;
  achievement_id = a.achievement_id;
  query_string = a.query_string;
  request_body = a.request_body;
  queued_at = a.queued_at;
  payload_hash = a.payload_hash;
  prev_hash = a.prev_hash;
  signature = a.signature;
}

abbrev pub parts : Store → List ChainPart
parts s = map chain_part s.pending_awards

-- The award has an id, and the first part of its achievement is its own.
pub record InChain (a : Award) (ps : List ChainPart) : Type 0 where
  pub id : (n : ℕ) × (a.id ≡ some n)
  pub found :
      find (λ (p : ChainPart). p.achievement_id == a.achievement_id) ps ≡ some (chain_part a)

-- An award with an id that takes the place of one with the same parts is stored as it is.
pub stored_again :
    (id n : ℕ) (a b : Award)
    → a.id ≡ some n
    → chain_part b ≡ chain_part a
    → record a { id = some (get_or b.id (get_or a.id id)) } ≡ a
stored_again id n a b i e =
    let ei : b.id ≡ some n = cc (ap (λ (p : ChainPart). p.id) e, i) in rw (ei, i)

put_award-parts :
    (id n : ℕ) (a : Award) (awards : List Award)
    → a.id ≡ some n
    → find (λ (p : ChainPart). p.achievement_id == a.achievement_id) (map chain_part awards)
      ≡ some (chain_part a)
    → map chain_part (put_award id a awards) ≡ map chain_part awards
unfolding put_award find
put_award-parts id n a [] i h = absurd cc
put_award-parts id n a (b ∷ awards) i h = elim (Bool-cases (is_for a.achievement_id b)) [
  | inl same ↦
      let e : chain_part b ≡ chain_part a = ground (arith, h) in
      let kept : chain_part (record a { id = some (get_or b.id (get_or a.id id)) }) ≡ chain_part a =
        ap chain_part (stored_again id n a b i e) in
      rw same (ap (λ p. p ∷ map chain_part awards) (cc (kept, e)))
  | inr differ ↦
      rw differ (ap (◌∷◌ (chain_part b)) (put_award-parts id n a awards i (ground (arith, h))))
]

-- Storing an award of the chain again changes no part.
pub upsert-parts :
    (a : Award) (s : Store) → InChain a (parts s) → parts (update_pending_award a s) ≡ parts s
unfolding update_pending_award upsert_pending_award
upsert-parts a s h = elim (Bool-cases (a.achievement_id == warning_achievement_id)) [
  | inl warning ↦ rw warning
  | inr genuine ↦ rw genuine (
      put_award-parts (next_json_id (map award_id s.pending_awards)) h.id.0 a s.pending_awards
        h.id.1 h.found)
]

-- An award with the given parts.
abbrev pub with_part : ChainPart → Award
with_part p = record {
  id = p.id;
  achievement_id = p.achievement_id;
  query_string = p.query_string;
  request_body = p.request_body;
  user_agent = [];
  queued_at = p.queued_at;
  retry_count = 0;
  last_error = none;
  status = Status.pending;
  payload_hash = p.payload_hash;
  prev_hash = p.prev_hash;
  signature = p.signature;
  signed_at = 0;
}

-- The parts determine the order and the verdict on the chain.
insert-parts :
    (x y : Award) (xs ys : List Award)
    → chain_part x ≡ chain_part y
    → map chain_part xs ≡ map chain_part ys
    → map chain_part (insert award_le x xs) ≡ map chain_part (insert award_le y ys)
unfolding insert award_le
insert-parts x y [] [] e h = ap (λ p. p ∷ []) e
insert-parts x y [] (v ∷ ys) e h = absurd cc
insert-parts x y (u ∷ xs) [] e h = absurd cc
insert-parts x y (u ∷ xs) (v ∷ ys) e h =
    let eu : chain_part u ≡ chain_part v = ground (arith, h) in
    let rest : map chain_part xs ≡ map chain_part ys = ground (arith, h) in
    let order : award_le x u ≡ award_le y v = λ i. award_le (with_part (e i)) (with_part (eu i)) in
    let later = insert-parts x y xs ys e rest in
    elim (Bool-cases (award_le y v)) [
      | inl before ↦ rw (order, before, e, eu, rest) refl
      | inr after ↦ rw (order, after, eu, later) refl
    ]

sort-parts :
    (xs ys : List Award)
    → map chain_part xs ≡ map chain_part ys
    → map chain_part (sort award_le xs) ≡ map chain_part (sort award_le ys)
unfolding sort
sort-parts [] [] h = refl
sort-parts [] (v ∷ ys) h = absurd cc
sort-parts (u ∷ xs) [] h = absurd cc
sort-parts (u ∷ xs) (v ∷ ys) h =
    insert-parts u v (sort award_le xs) (sort award_le ys) (ground (arith, h))
      (sort-parts xs ys (ground (arith, h)))

module _ (c : Crypto) (secret : Text) where
  check_award-parts :
      (p q : Option Award) (a b : Award)
      → link_of p ≡ link_of q
      → chain_part a ≡ chain_part b
      → check_award c secret p a ≡ check_award c secret q b
  unfolding check_award canonical_payload
  check_award-parts p q a b l e = rw l (ap (λ x. check_award c secret q (with_part x)) e)

  verify_from-parts :
      (i : ℕ) (p q : Option Award) (xs ys : List Award)
      → link_of p ≡ link_of q
      → map chain_part xs ≡ map chain_part ys
      → verify_from c secret i p xs ≡ verify_from c secret i q ys
  unfolding verify_from
  verify_from-parts i p q [] [] l h = refl
  verify_from-parts i p q [] (v ∷ ys) l h = absurd cc
  verify_from-parts i p q (u ∷ xs) [] l h = absurd cc
  verify_from-parts i p q (u ∷ xs) (v ∷ ys) l h =
      let e : chain_part u ≡ chain_part v = ground (arith, h) in
      let rest : map chain_part xs ≡ map chain_part ys = ground (arith, h) in
      let link : link_of (some u) ≡ link_of (some v) = ap (λ x. link_of (some (with_part x))) e in
      cc
        (check_award-parts p q u v l e, verify_from-parts (i + 1) (some u) (some v) xs ys link rest)

  pub verify_chain-parts :
      (s t : Store)
      → parts s ≡ parts t
      → verify_chain c secret (get_pending_awards s) ≡ verify_chain c secret (get_pending_awards t)
  unfolding verify_chain get_pending_awards
  verify_chain-parts s t h =
      verify_from-parts 0 none none _ _ refl (sort-parts s.pending_awards t.pending_awards h)
