-- ===== src/RomCache/GameIds/Wanted.antt =====
-- The games that a search has found so far, one for each of some wanted achievements: `found` in
-- `find_achievement_game_ids` of linux/raofflineproxy/rom_cache.py.
use raoffline_proxy.Prelude.{
  ℕ, suc, ◌≤◌, ◌<◌, ◌≡◌, refl, sym, ap, ◌∙◌, subst, Bool, true, false, ◌&&◌, not, Option, none,
  some, List, [], ◌∷◌, ◌++◌, map, arith, any, keep, ◌==◌, if◌then◌else◌, length, is_some, All,
  Distinct, Distinct-snoc, All-snoc, All-both, All-map, Bool-cases, Option-cases, inl, inr,
}
use raoffline_proxy.RomCache.Unlocks.{GameIds, game_of, member}
use raoffline_proxy.RomCache.GameIds.{set_default}
use raoffline_proxy.RomCache.GameIds.Search.{take_wanted}

abbrev pub or_else : Option ℕ → Option ℕ → Option ℕ
or_else none b = b
or_else (some a) b = some a

pub or_else_assoc : (a b c : Option ℕ) → or_else (or_else a b) c ≡ or_else a (or_else b c)
or_else_assoc none b c = refl
or_else_assoc (some a) b c = refl

pub or_else-none : (a : Option ℕ) → a ≡ or_else a none
or_else-none none = refl
or_else-none (some a) = refl

if-none : (b : Bool) (o : Option ℕ) → o ≡ none → (if b then o else none) ≡ none
if-none true o e = e
if-none false o e = refl

abbrev same : ℕ → ℕ → Bool
same m n = m == n

abbrev keys : GameIds → List ℕ
keys ids = map (λ (x : ℕ × ℕ). x.0) ids

game_of-snoc :
    (n m g : ℕ) (ids : GameIds)
    → game_of n (ids ++ (m, g) ∷ []) ≡ or_else (game_of n ids) (if m == n then some g else none)
unfolding game_of
game_of-snoc n m g [] = refl
game_of-snoc n m g ((a, game) ∷ ids) = elim (Bool-cases (a == n)) [
  | inl e ↦ rw e refl
  | inr e ↦ rw e (game_of-snoc n m g ids)
]

game_of-set_default :
    (n m g : ℕ) (ids : GameIds)
    → game_of n (set_default m g ids) ≡ or_else (game_of n ids) (if m == n then some g else none)
unfolding set_default
game_of-set_default n m g ids = elim (Option-cases (game_of m ids)) [
  | inl new ↦ rw new (game_of-snoc n m g ids)
  | inr (game, old) ↦ rw old (elim (Bool-cases (m == n)) [
    | inl e ↦
        let eq : m ≡ n = ground arith in
        let here : game_of n ids ≡ some game = subst (λ k. game_of k ids ≡ some game) eq old in
        rw (e, here) refl
    | inr e ↦ rw e (or_else-none (game_of n ids))
  ])
]

pub game_of-take_wanted :
    (n : ℕ) (ns : List ℕ) (ids found : GameIds)
    → game_of n (take_wanted ns ids found)
      ≡ or_else (game_of n found) (if member n ns then game_of n ids else none)
unfolding take_wanted any
game_of-take_wanted n [] ids found = or_else-none (game_of n found)
game_of-take_wanted n (m ∷ ns) ids found =
    let rest = if member n ns then game_of n ids else none in
    elim (Option-cases (game_of m ids)) [
      | inl e ↦ elim (Bool-cases (m == n)) [
        | inl here ↦
            let eq : m ≡ n = ground arith in
            let gone : game_of n ids ≡ none = subst (λ k. game_of k ids ≡ none) eq e in
            rw (take_wanted, e, here)
              (game_of-take_wanted n ns ids found
                ∙ ap (or_else (game_of n found))
                    (if-none (member n ns) (game_of n ids) gone ∙ sym gone))
        | inr there ↦ rw (take_wanted, e, there) (game_of-take_wanted n ns ids found)
      ]
      | inr (g, e) ↦
          let step : game_of n (take_wanted ns ids (set_default m g found))
              ≡ or_else (game_of n found) (or_else (if m == n then some g else none) rest) =
            game_of-take_wanted n ns ids (set_default m g found)
            ∙ ap (λ o. or_else o rest) (game_of-set_default n m g found)
            ∙ or_else_assoc (game_of n found) (if m == n then some g else none) rest in
          elim (Bool-cases (m == n)) [
            | inl here ↦
                let eq : m ≡ n = ground arith in
                let there : game_of n ids ≡ some g = subst (λ k. game_of k ids ≡ some g) eq e in
                rw (take_wanted, e) (step ∙ ap (or_else (game_of n found)) (rw (here, there) refl))
            | inr other ↦
                rw (take_wanted, e) (step ∙ ap (or_else (game_of n found)) (rw other refl))
          ]
    ]

-- A game for some of the wanted achievements, one for each.
abbrev pub Fits : List ℕ → GameIds → Type 0
Fits wanted found = Distinct same (keys found) × All (λ m. member m wanted ≡ true) (keys found)

absent : (n : ℕ) (ids : GameIds) → game_of n ids ≡ none → All (λ m. (m == n) ≡ false) (keys ids)
unfolding game_of
absent n [] h = tt
absent n ((a, game) ∷ ids) h = (ground arith, absent n ids (ground arith))

pub present :
    (n : ℕ) (ids : GameIds) (P : ℕ → Type 0)
    → All P (keys ids)
    → is_some (game_of n ids) ≡ true
    → P n
unfolding game_of
present n [] P h e = absurd cc
present n ((a, game) ∷ ids) P h e = elim (Bool-cases (a == n)) [
  | inl here ↦ let eq : a ≡ n = ground arith in subst P eq h.0
  | inr there ↦ present n ids P h.1 (ground arith)
]

keys-snoc : (ids : GameIds) (m g : ℕ) → keys (ids ++ (m, g) ∷ []) ≡ keys ids ++ m ∷ []
keys-snoc [] m g = refl
keys-snoc ((a, game) ∷ ids) m g = ap (λ ns. a ∷ ns) (keys-snoc ids m g)

set_default-Fits :
    (wanted : List ℕ) (m g : ℕ) (found : GameIds)
    → member m wanted ≡ true
    → Fits wanted found
    → Fits wanted (set_default m g found)
unfolding set_default
set_default-Fits wanted m g found w h = elim (Option-cases (game_of m found)) [
  | inl new ↦
      rw (new, keys-snoc found m g)
        (
          Distinct-snoc same (keys found) m h.0 (absent m found new),
          All-snoc (λ n. member n wanted ≡ true) (keys found) m h.1 w,
        )
  | inr (game, old) ↦ rw old h
]

pub take_wanted-Fits :
    (wanted ns : List ℕ) (ids found : GameIds)
    → ((m : ℕ) → member m ns ≡ true → member m wanted ≡ true)
    → Fits wanted found
    → Fits wanted (take_wanted ns ids found)
unfolding take_wanted any
take_wanted-Fits wanted [] ids found sub h = h
take_wanted-Fits wanted (m ∷ ns) ids found sub h =
    let later : (k : ℕ) → member k ns ≡ true → member k wanted ≡ true =
      λ k e. sub k (ground arith) in
    elim (Option-cases (game_of m ids)) [
      | inl e ↦ rw (take_wanted, e) (take_wanted-Fits wanted ns ids found later h)
      | inr (g, e) ↦
          rw (take_wanted, e)
            (take_wanted-Fits wanted ns ids (set_default m g found) later
              (set_default-Fits wanted m g found (sub m (ground arith)) h))
    ]

member-keep :
    (n x : ℕ) (ns : List ℕ) → member n (keep (λ m. not (m == x)) ns) ≡ member n ns && not (n == x)
unfolding keep any
member-keep n x [] = refl
member-keep n x (m ∷ ns) = elim (Bool-cases (m == x)) [
  | inl e ↦ rw e (ground (arith, member-keep n x ns))
  | inr e ↦ rw e (ground (arith, member-keep n x ns))
]

keep_le : (p : ℕ → Bool) (ns : List ℕ) → length (keep p ns) ≤ length ns
unfolding keep
keep_le p [] = omega arith
keep_le p (m ∷ ns) = ground (arith, keep_le p ns)

keep_lt :
    (x : ℕ) (ns : List ℕ) → member x ns ≡ true → length (keep (λ m. not (m == x)) ns) < length ns
unfolding keep any
keep_lt x [] h = absurd cc
keep_lt x (m ∷ ns) h = elim (Bool-cases (m == x)) [
  | inl e ↦ rw e (let r = keep_le (λ m. not (m == x)) ns in omega arith)
  | inr e ↦ rw e (let r = keep_lt x ns (ground arith) in omega arith)
]

-- A list of distinct numbers is no longer than a list that has them all.
within_le :
    (xs ys : List ℕ) → Distinct same xs → All (λ m. member m ys ≡ true) xs → length xs ≤ length ys
within_le [] ys d h = omega arith
within_le (x ∷ xs) ys d h =
    let others =
      All-both (λ m. (x == m) ≡ false) (λ m. member m ys ≡ true)
        (λ m. member m (keep (λ k. not (k == x)) ys) ≡ true) xs
        (λ m apart here. member-keep m x ys ∙ ground arith) d.0 h.1 in
    let shorter = within_le xs (keep (λ k. not (k == x)) ys) d.1 others in
    let one = keep_lt x ys h.0 in omega arith

length-keys : (ids : GameIds) → length (keys ids) ≡ length ids
length-keys [] = refl
length-keys (x ∷ ids) = ap (λ n. suc n) (length-keys ids)

-- As many games as wanted achievements: each of these has one.
pub all-is_some :
    (wanted : List ℕ) (found : GameIds) (n : ℕ)
    → Fits wanted found
    → (length found == length wanted) ≡ true
    → member n wanted ≡ true
    → is_some (game_of n found) ≡ true
all-is_some wanted found n h full w = elim (Option-cases (game_of n found)) [
  | inl e ↦
      let apart =
        All-map (λ m. (m == n) ≡ false) (λ m. (n == m) ≡ false) (λ m p. ground arith) (keys found)
          (absent n found e) in
      let more = within_le (n ∷ keys found) wanted (apart, h.0) (w, h.1) in
      let size = length-keys found in
      let equal : length found ≡ length wanted = ground (arith, full) in
      absurd (omega (arith, more, size, equal))
  | inr (g, e) ↦ rw e refl
]
