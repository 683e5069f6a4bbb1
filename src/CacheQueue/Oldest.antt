-- ===== src/CacheQueue/Oldest.antt =====
-- The search for the oldest waiting ROM in linux/raofflineproxy/cache_queue.py ends.
use raoffline_proxy.Prelude.{
  ℕ, zero, suc, ◌≤◌, ◌<◌, ◌≡◌, ◌⊎◌, refl, ◌∙◌, subst, Bool, true, ◌&&◌, not, none, some, List, [],
  ◌∷◌, Text, arith, text_eq_refl, keep, any, count, All, All-map, Bool-cases, Option-cases, inl,
  inr,
}
use raoffline_proxy.Json.{Json, Codec}
use raoffline_proxy.Storage.{Entry, Store}
use raoffline_proxy.Storage.Cache.{
  delete_cache, oldest_cache_by_prefix, count_cache_by_prefix, has_key, key_starts_with, oldest_of,
  oldest_from, older, entries_by_prefix,
}
use raoffline_proxy.CacheQueue.{QueuedRom, from_json, oldest, queued_count, queue_prefix}

-- The search for the oldest ROM.
count-keep_le : (p q : Entry → Bool) (es : List Entry) → count p (keep q es) ≤ count p es
unfolding count keep
count-keep_le p q [] = omega arith
count-keep_le p q (e ∷ es) = ground (arith, count-keep_le p q es)

count-keep_less :
    (p q : Entry → Bool) (es : List Entry)
    → any (λ e. p e && not (q e)) es ≡ true
    → count p (keep q es) < count p es
unfolding count keep any
count-keep_less p q [] h = absurd cc
count-keep_less p q (e ∷ es) h = ground (arith, count-keep_less p q es, count-keep_le p q es)

abbrev Held : (Entry → Bool) → List Entry → Entry → Type 0
Held p es e = any (λ x. p x && has_key e.cache_key x) es ≡ true

kept-Held : (p : Entry → Bool) (es : List Entry) → All (Held p es) (keep p es)
unfolding keep any
kept-Held p [] = tt
kept-Held p (e ∷ es) =
    let wider =
      All-map (Held p es) (Held p (e ∷ es)) (λ x h. ground (arith, h)) (keep p es)
        (kept-Held p es) in
    elim (Bool-cases (p e)) [
      | inl in_it ↦ rw in_it (ground (arith, in_it, text_eq_refl e.cache_key), wider)
      | inr out ↦ rw out wider
    ]

oldest_from-All :
    (P : Entry → Type 0) (best : Entry) (es : List Entry)
    → P best
    → All P es
    → P (oldest_from best es)
unfolding oldest_from
oldest_from-All P best [] h hs = h
oldest_from-All P best (e ∷ es) h hs = elim (Bool-cases (older e best)) [
  | inl before ↦ rw before (oldest_from-All P e es hs.0 hs.1)
  | inr after ↦ rw after (oldest_from-All P best es h hs.1)
]

pub oldest_of-All :
    (P : Entry → Type 0) (es : List Entry) (e : Entry) → All P es → oldest_of es ≡ some e → P e
unfolding oldest_of
oldest_of-All P [] e hs h = absurd cc
oldest_of-All P (x ∷ es) e hs h =
    let same : oldest_from x es ≡ e = ground arith in
    subst P same (oldest_from-All P x es hs.0 hs.1)

oldest_of-none :
    (p : Entry → Bool) (es : List Entry) → oldest_of (keep p es) ≡ none → count p es ≡ 0
unfolding oldest_of keep count
oldest_of-none p [] h = refl
oldest_of-none p (e ∷ es) h = ground (arith, oldest_of-none p es)

Held-not :
    (p : Entry → Bool) (e : Entry) (es : List Entry)
    → Held p es e
    → any (λ x. p x && not (not (has_key e.cache_key x))) es ≡ true
unfolding any
Held-not p e [] h = absurd cc
Held-not p e (x ∷ es) h = ground (arith, Held-not p e es)

deleted_count :
    (s : Store) (e : Entry)
    → oldest_cache_by_prefix s queue_prefix ≡ some e
    → queued_count (delete_cache e.cache_key s) < queued_count s
unfolding oldest_cache_by_prefix queued_count count_cache_by_prefix delete_cache entries_by_prefix
deleted_count s e h =
    let p : Entry → Bool = key_starts_with queue_prefix in
    let held : Held p s.api_cache e =
      oldest_of-All (Held p s.api_cache) (keep p s.api_cache) e (kept-Held p s.api_cache) h in
    count-keep_less p (λ x. not (has_key e.cache_key x)) s.api_cache (Held-not p e s.api_cache held)

module _ (json : Codec) (show : Json → Text) where
  -- A ROM is found, or nothing waits any more.
  abbrev pub Ends : ℕ → Store → Type 0
  Ends fuel s =
      (s' : Store) × (((rom : QueuedRom) × (oldest json show fuel s ≡ some (s', some rom)))
        ⊎ ((oldest json show fuel s ≡ some (s', none)) × (queued_count s' ≡ 0)))

  -- With more fuel than ROMs wait, the search ends: with a ROM that can be read, or with a queue that
  -- is empty.
  pub oldest-Ends : (fuel : ℕ) (s : Store) → queued_count s < fuel → Ends fuel s
  unfolding oldest
  oldest-Ends zero s h = absurd (omega arith)
  oldest-Ends (suc fuel) s h = elim (Option-cases (oldest_cache_by_prefix s queue_prefix)) [
    | inl empty ↦
        let none_left : queued_count s ≡ 0 =
          unfold oldest_cache_by_prefix entries_by_prefix queued_count count_cache_by_prefix in
          oldest_of-none (key_starts_with queue_prefix) s.api_cache empty in
        (s, inr (rw (empty, oldest) refl, none_left))
    | inr (e, found) ↦ elim (Option-cases (from_json json show e.response_body)) [
      | inr (rom, reads) ↦ (s, inl (rom, rw (found, reads, oldest) refl))
      | inl unreadable ↦
          let again : oldest json show (suc fuel) s
              ≡ oldest json show fuel (delete_cache e.cache_key s) =
            rw (found, unreadable, oldest) refl in
          let less = deleted_count s e found in
          let (s', ended) =
            oldest-Ends fuel (delete_cache e.cache_key s) (omega (arith, h, less)) in
          (
            s',
            elim ended [
              | inl (rom, e') ↦ inl (rom, again ∙ e')
              | inr (e', empty) ↦ inr (again ∙ e', empty)
            ],
          )
    ]
  ]
