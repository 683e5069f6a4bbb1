-- ===== src/CacheKeys/RoundTrip.antt =====
-- Keys of linux/raofflineproxy/cache_keys.py read back.
use raoffline_proxy.Prelude.{
  ℕ, zero, suc, ◌≡◌, refl, some, [], ◌∷◌, ◌++◌, Text, arith, Bool-cases, inl, inr, ltb,
  starts_with-append, drop_prefix-append, ◌≢◌, All, ◌+◌, ◌/◌, ◌%◌,
}
use raoffline_proxy.CacheKeys.{
  normalize, before_colon, parse_game_id_from_patch_key, parse_game_id_from_last_played_key,
}
use raoffline_proxy.CacheKeys.Decimal.{digits_from, decimal, int_of-decimal, is_digits-decimal}
use raoffline_proxy.CacheKeys.Key

-- A text without colons is read up to the first colon after it.
before_colon-append : (s t : Text) → All (λ c. c ≢ 58) s → before_colon (s ++ 58 ∷ t) ≡ s
unfolding before_colon
before_colon-append [] t h = refl
before_colon-append (c ∷ s) t h = ground (arith, before_colon-append s t h.1)

digits_from-no_colon :
    (fuel n : ℕ) (acc : Text) → All (λ c. c ≢ 58) acc → All (λ c. c ≢ 58) (digits_from fuel n acc)
unfolding digits_from
digits_from-no_colon zero n acc a = a
digits_from-no_colon (suc fuel) n acc a = elim (Bool-cases (ltb n 10)) [
  | inl small ↦ rw small (ground arith, a)
  | inr large ↦ rw large (digits_from-no_colon fuel (n / 10) ((48 + n % 10) ∷ acc) (omega arith, a))
]

decimal-no_colon : (n : ℕ) → All (λ c. c ≢ 58) (decimal n)
unfolding decimal
decimal-no_colon n = digits_from-no_colon (suc n) n [] tt

-- The game id of a patch key is the one that the key was built with, whatever the user's name.
pub parse-patch :
    (game : ℕ) (user : Text) → parse_game_id_from_patch_key (Key.patch game user) ≡ some game
unfolding parse_game_id_from_patch_key Key.patch
parse-patch game user = rw starts_with-append (
    rw drop_prefix-append (
      rw (before_colon-append (decimal game) (normalize user) (decimal-no_colon game))
        (rw is_digits-decimal (rw int_of-decimal refl))))

pub parse-last_played :
    (game : ℕ) → parse_game_id_from_last_played_key (Key.last_played game) ≡ some game
unfolding parse_game_id_from_last_played_key Key.last_played
parse-last_played game =
    rw starts_with-append (rw drop_prefix-append (rw is_digits-decimal (rw int_of-decimal refl)))
