-- ===== src/RomCache/GameIds/Found.antt =====
-- What `find_achievement_game_ids` of linux/raofflineproxy/rom_cache.py finds: it stops as soon as every
-- achievement has a game, and no entry that it leaves out would have changed one.
use raoffline_proxy.Prelude.{
  ℕ, ◌≡◌, refl, sym, ap, ◌∙◌, subst, true, false, ◌&&◌, not, Option, none, some, List, [], ◌∷◌,
  Text, arith, any, ltb, ◌==◌, if◌then◌else◌, length, is_some, All, Bool-cases, Option-cases,
  List-cases, inl, inr,
}
use raoffline_proxy.Json.{Codec}
use raoffline_proxy.Storage.{Entry, Store}
use raoffline_proxy.Storage.Cache.{entries_by_prefix}
use raoffline_proxy.RomCache.Unlocks.{GameIds, game_of, member, merge_cached}
use raoffline_proxy.RomCache.Merged.{member-merge_cached}
use raoffline_proxy.RomCache.GameIds.{entry_game_ids}
use raoffline_proxy.RomCache.GameIds.Search.{
  Search, going, all_found, search_raised, mentions_wanted, take_wanted, after_entry,
  search_entries, search_prefixes, likely_first_prefixes, find_achievement_game_ids,
}
use raoffline_proxy.RomCache.GameIds.Wanted.{
  or_else, or_else-none, or_else_assoc, Fits, present, take_wanted-Fits, game_of-take_wanted,
  all-is_some,
}

module _ (json : Codec) where
  -- The game that the entry names for an achievement, if it is read at all.
  abbrev pub game_in : Text → List ℕ → ℕ → Entry → Option ℕ
  game_in prefix wanted n e =
      if mentions_wanted wanted e.response_body
      then elim (entry_game_ids json prefix e) [ none ↦ none | some ids ↦ game_of n ids ]
      else none

  -- The game that the first of the entries names.
  abbrev pub first_in : Text → List ℕ → ℕ → List Entry → Option ℕ
  first_in prefix wanted n [] = none
  first_in prefix wanted n (e ∷ es) =
      or_else (game_in prefix wanted n e) (first_in prefix wanted n es)

  abbrev pub first_game : List ℕ → ℕ → Store → List Text → Option ℕ
  first_game wanted n s [] = none
  first_game wanted n s (prefix ∷ later) =
      or_else (first_in prefix wanted n (entries_by_prefix s prefix)) (first_game wanted n s later)

  -- An entry that mentions a wanted achievement is read without an exception.
  abbrev pub IsReadable : Text → List ℕ → Entry → Type 0
  IsReadable prefix wanted e =
      mentions_wanted wanted e.response_body && not (is_some (entry_game_ids json prefix e)) ≡ false

  -- What a search has found where each achievement is to have the game that `game` gives it.
  abbrev IsFound : List ℕ → (ℕ → Option ℕ) → Search → Type 0
  IsFound wanted game (going found) =
      Fits wanted found × ((n : ℕ) → member n wanted ≡ true → game_of n found ≡ game n)
  IsFound wanted game (all_found found) =
      Fits wanted found
      × ((n : ℕ)
          → member n wanted ≡ true
          → (game_of n found ≡ game n) × (is_some (game_of n found) ≡ true))
  IsFound wanted game search_raised = ⊥

  or_else_left : (a b : Option ℕ) → is_some a ≡ true → a ≡ or_else a b
  or_else_left none b h = absurd cc
  or_else_left (some a) b h = refl

  IsFound-map :
      (wanted : List ℕ) (f g : ℕ → Option ℕ) (r : Search)
      → ((n : ℕ) → member n wanted ≡ true → f n ≡ g n)
      → IsFound wanted f r
      → IsFound wanted g r
  IsFound-map wanted f g (going found) eq h = (h.0, λ n w. h.1 n w ∙ eq n w)
  IsFound-map wanted f g (all_found found) eq h = (h.0, λ n w. ((h.1 n w).0 ∙ eq n w, (h.1 n w).1))
  IsFound-map wanted f g search_raised eq h = elim h [ ]

  game_in_read :
      (prefix : Text) (wanted : List ℕ) (n : ℕ) (e : Entry) (ids : GameIds)
      → mentions_wanted wanted e.response_body ≡ true
      → entry_game_ids json prefix e ≡ some ids
      → game_in prefix wanted n e ≡ game_of n ids
  game_in_read prefix wanted n e ids read good = rw (read, good) refl

  -- What is known after an entry that was read.
  take_wanted-game_in :
      (prefix : Text) (wanted : List ℕ) (n : ℕ) (e : Entry) (ids found : GameIds)
      → mentions_wanted wanted e.response_body ≡ true
      → entry_game_ids json prefix e ≡ some ids
      → member n wanted ≡ true
      → game_of n (take_wanted wanted ids found)
        ≡ or_else (game_of n found) (game_in prefix wanted n e)
  take_wanted-game_in prefix wanted n e ids found read good w =
      game_of-take_wanted n wanted ids found
      ∙ ap (or_else (game_of n found)) (rw w (sym (game_in_read prefix wanted n e ids read good)))

  search_entries-IsFound :
      (prefix : Text) (wanted : List ℕ) (es : List Entry) (found : GameIds)
      → Fits wanted found
      → All (IsReadable prefix wanted) es
      → IsFound wanted
          (λ n. or_else (game_of n found) (first_in prefix wanted n es))
          (search_entries json prefix wanted es found)
  unfolding search_entries after_entry
  search_entries-IsFound prefix wanted [] found h ok = (h, λ n w. or_else-none (game_of n found))
  search_entries-IsFound prefix wanted (e ∷ es) found h ok =
      let goal =
        IsFound wanted (λ n. or_else (game_of n found) (first_in prefix wanted n (e ∷ es))) in
      elim (Bool-cases (mentions_wanted wanted e.response_body)) [
        | inr skip ↦
            let unread : (n : ℕ) → game_in prefix wanted n e ≡ none = λ n. rw skip refl in
            let run : search_entries json prefix wanted (e ∷ es) found
                ≡ search_entries json prefix wanted es found =
              rw (search_entries, skip) refl in
            subst goal (sym run) (
              IsFound-map wanted _ _ _ (λ n w. rw (unread n) refl)
                (search_entries-IsFound prefix wanted es found h ok.1))
        | inl read ↦ elim (Option-cases (entry_game_ids json prefix e)) [
          | inl bad ↦ absurd (ground (arith, ok.0))
          | inr (ids, good) ↦
              let t = take_wanted wanted ids found in
              let fits : Fits wanted t = take_wanted-Fits wanted wanted ids found (λ m w. w) h in
              let named : (n : ℕ)
                  → member n wanted ≡ true
                  → game_of n t ≡ or_else (game_of n found) (game_in prefix wanted n e) =
                λ n w. take_wanted-game_in prefix wanted n e ids found read good w in
              let rest : ℕ → Option ℕ = λ n. first_in prefix wanted n es in
              elim (Bool-cases (length t == length wanted)) [
                | inl full ↦
                    let run : search_entries json prefix wanted (e ∷ es) found ≡ all_found t =
                      rw (search_entries, read, good, after_entry, full) refl in
                    let each : (n : ℕ) → member n wanted ≡ true → is_some (game_of n t) ≡ true =
                      λ n w. all-is_some wanted t n fits full w in
                    subst goal (sym run) (
                      fits,
                      λ n w. (
                        or_else_left (game_of n t) (rest n) (each n w)
                            ∙ ap (λ o. or_else o (rest n)) (named n w)
                            ∙ or_else_assoc (game_of n found) (game_in prefix wanted n e) (rest n),
                        each n w,
                      ),
                    )
                | inr more ↦
                    let run : search_entries json prefix wanted (e ∷ es) found
                        ≡ search_entries json prefix wanted es t =
                      rw (search_entries, read, good, after_entry, more) refl in
                    subst goal (sym run) (
                      IsFound-map wanted _ _ _
                        (λ n w.
                          ap (λ o. or_else o (rest n)) (named n w)
                          ∙ or_else_assoc (game_of n found) (game_in prefix wanted n e) (rest n))
                        (search_entries-IsFound prefix wanted es t fits ok.1))
              ]
        ]
      ]

  -- What the whole search gives.
  abbrev IsAnswer : List ℕ → (ℕ → Option ℕ) → Option GameIds → Type 0
  IsAnswer wanted game none = ⊥
  IsAnswer wanted game (some found) =
      Fits wanted found × ((n : ℕ) → member n wanted ≡ true → game_of n found ≡ game n)

  IsAnswer-map :
      (wanted : List ℕ) (f g : ℕ → Option ℕ) (r : Option GameIds)
      → ((n : ℕ) → member n wanted ≡ true → f n ≡ g n)
      → IsAnswer wanted f r
      → IsAnswer wanted g r
  IsAnswer-map wanted f g none eq h = elim h [ ]
  IsAnswer-map wanted f g (some found) eq h = (h.0, λ n w. h.1 n w ∙ eq n w)

  -- From the outcome of the first prefix, and from what the others give to a search that goes on.
  going_on-IsAnswer :
      (wanted : List ℕ) (known here later : ℕ → Option ℕ) (next : GameIds → Option GameIds)
      → ((f : GameIds)
          → Fits wanted f
          → IsAnswer wanted (λ n. or_else (game_of n f) (later n)) (next f))
      → (r : Search) → IsFound wanted (λ n. or_else (known n) (here n)) r
      → IsAnswer wanted
          (λ n. or_else (known n) (or_else (here n) (later n)))
          (elim r [ going f ↦ next f | all_found f ↦ some f | search_raised ↦ none ])
  going_on-IsAnswer wanted known here later next rest (going f) k =
      IsAnswer-map wanted _ _ _
        (λ n w.
          ap (λ o. or_else o (later n)) (k.1 n w) ∙ or_else_assoc (known n) (here n) (later n))
        (rest f k.0)
  going_on-IsAnswer wanted known here later next rest (all_found f) k = (
    k.0,
    λ n w.
        or_else_left (game_of n f) (later n) (k.1 n w).1
        ∙ ap (λ o. or_else o (later n)) (k.1 n w).0
        ∙ or_else_assoc (known n) (here n) (later n),
  )
  going_on-IsAnswer wanted known here later next rest search_raised k = elim k [ ]

  search_prefixes-IsAnswer :
      (wanted : List ℕ) (s : Store) (prefixes : List Text) (found : GameIds)
      → Fits wanted found
      → All (λ prefix. All (IsReadable prefix wanted) (entries_by_prefix s prefix)) prefixes
      → IsAnswer wanted
          (λ n. or_else (game_of n found) (first_game wanted n s prefixes))
          (search_prefixes json wanted s prefixes found)
  unfolding search_prefixes
  search_prefixes-IsAnswer wanted s [] found h ok = (h, λ n w. or_else-none (game_of n found))
  search_prefixes-IsAnswer wanted s (prefix ∷ later) found h ok =
      going_on-IsAnswer wanted (λ n. game_of n found)
        (λ n. first_in prefix wanted n (entries_by_prefix s prefix))
        (λ n. first_game wanted n s later) (λ f. search_prefixes json wanted s later f)
        (λ f fits. search_prefixes-IsAnswer wanted s later f fits ok.1)
        (search_entries json prefix wanted (entries_by_prefix s prefix) found)
        (search_entries-IsFound prefix wanted (entries_by_prefix s prefix) found h ok.0)

  find-IsAnswer :
      (likely : Option ℕ) (achievements : List ℕ) (s : Store)
      → All
          (λ prefix.
            All (IsReadable prefix (merge_cached [] achievements)) (entries_by_prefix s prefix))
          (likely_first_prefixes likely s)
      → IsAnswer
          (merge_cached [] achievements)
          (λ n. first_game (merge_cached [] achievements) n s (likely_first_prefixes likely s))
          (find_achievement_game_ids json likely achievements s)
  unfolding find_achievement_game_ids game_of any
  find-IsAnswer likely achievements s ok =
      let wanted = merge_cached [] achievements in
      let game : ℕ → Option ℕ = λ n. first_game wanted n s (likely_first_prefixes likely s) in
      elim (List-cases wanted) [
        | inl e ↦
            let run : find_achievement_game_ids json likely achievements s ≡ some [] =
              rw (find_achievement_game_ids, e) refl in
            subst (IsAnswer wanted game) (sym run) ((tt, tt), λ n w. absurd (unfold any in cc))
        | inr (m, ms, e) ↦
            let run : find_achievement_game_ids json likely achievements s
                ≡ search_prefixes json (m ∷ ms) s (likely_first_prefixes likely s) [] =
              rw (find_achievement_game_ids, e) refl in
            subst (IsAnswer wanted game)
              (ap (λ w. search_prefixes json w s (likely_first_prefixes likely s) []) e ∙ sym run)
              (search_prefixes-IsAnswer wanted s (likely_first_prefixes likely s) [] (tt, tt) ok)
      ]

  returned :
      (wanted : List ℕ) (game : ℕ → Option ℕ) (r : Option GameIds)
      → IsAnswer wanted game r
      → (found : GameIds) × (r ≡ some found)
        × ((n : ℕ) → game_of n found ≡ (if member n wanted then game n else none))
  returned wanted game none h = elim h [ ]
  returned wanted game (some found) h = (
    found,
    refl,
    λ n. elim (Bool-cases (member n wanted)) [
      | inl w ↦ rw w (h.1 n w)
      | inr w ↦ elim (Option-cases (game_of n found)) [
        | inl e ↦ rw (w, e) refl
        | inr (g, e) ↦
            let known = present n found (λ m. member m wanted ≡ true) h.0.1 (rw e refl) in absurd cc
      ]
    ],
  )

  -- Where every entry that mentions a wanted achievement is read without an exception, the search
  -- returns, and gives each positive achievement that it was asked for the game that the first such
  -- entry names, and no other achievement a game.
  pub find_achievement_game_ids-first_game :
      (likely : Option ℕ) (achievements : List ℕ) (s : Store)
      → All
          (λ prefix.
            All (IsReadable prefix (merge_cached [] achievements)) (entries_by_prefix s prefix))
          (likely_first_prefixes likely s)
      → (found : GameIds) × (find_achievement_game_ids json likely achievements s ≡ some found)
        × ((n : ℕ)
            → game_of n found ≡ (
                if ltb 0 n && member n achievements
                then first_game (merge_cached [] achievements) n s (likely_first_prefixes likely s)
                else none))
  unfolding any
  find_achievement_game_ids-first_game likely achievements s ok =
      let wanted = merge_cached [] achievements in
      let answer = returned wanted _ _ (find-IsAnswer likely achievements s ok) in
      (
        answer.0,
        answer.1,
        λ n.
            answer.2 n
            ∙ ap (λ b. if b then first_game wanted n s (likely_first_prefixes likely s) else none)
                (member-merge_cached n [] achievements),
      )
