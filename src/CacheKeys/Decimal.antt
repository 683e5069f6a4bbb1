-- ===== src/CacheKeys/Decimal.antt =====
-- `str(n)`, `s.isdigit()` and `int(s)` of Python on ASCII digits, as linux/raofflineproxy uses them
-- to put a game id into a key and to read it back.
use raoffline_proxy.Prelude.{
  ℕ, zero, suc, ◌+◌, ◌-◌, ◌*◌, ◌/◌, ◌%◌, ◌<◌, ◌≡◌, refl, Bool, true, ◌&&◌, [], ◌∷◌, Text, ltb, leb,
  if◌then◌else◌, arith, Bool-cases, not, is_empty, ap, inl, inr,
}

-- The digits of `n` in front of `acc`; `n < fuel` is enough.
unfoldable pub digits_from : ℕ → ℕ → Text → Text
digits_from zero n acc = acc
digits_from (suc fuel) n acc =
    let rest = digits_from fuel (n / 10) ((48 + n % 10) ∷ acc) in
    if ltb n 10 then (48 + n) ∷ acc else rest

unfoldable pub decimal : ℕ → Text
unfolding digits_from
decimal n = digits_from (suc n) n []

abbrev is_digit : ℕ → Bool
is_digit c = leb 48 c && leb c 57

unfoldable pub all_digits : Text → Bool
all_digits [] = true
all_digits (c ∷ s) = is_digit c && all_digits s

-- `s.isdigit()` is false on the empty text.
unfoldable pub is_digits : Text → Bool
unfolding all_digits is_empty
is_digits s = not (is_empty s) && all_digits s

unfoldable pub int_from : ℕ → Text → ℕ
int_from n [] = n
int_from n (c ∷ s) = int_from (n * 10 + (c - 48)) s

unfoldable pub int_of : Text → ℕ
unfolding int_from
int_of s = int_from 0 s

int_from-digits_from :
    (fuel n : ℕ) (acc : Text) → n < fuel → int_from 0 (digits_from fuel n acc) ≡ int_from n acc
unfolding digits_from int_from
int_from-digits_from zero n acc h = elim h [ ]
int_from-digits_from (suc fuel) n acc h = elim (Bool-cases (ltb n 10)) [
  | inl small ↦ rw small (ap (λ k. int_from k acc) (omega arith))
  | inr large ↦
      rw (large, int_from-digits_from fuel (n / 10) ((48 + n % 10) ∷ acc) (ground arith))
        (ap (λ k. int_from k acc) (omega arith))
]

all_digits-digits_from :
    (fuel n : ℕ) (acc : Text)
    → n < fuel
    → all_digits acc ≡ true
    → is_digits (digits_from fuel n acc) ≡ true
unfolding digits_from is_digits
all_digits-digits_from zero n acc h a = elim h [ ]
all_digits-digits_from (suc fuel) n acc h a =
    ground (arith, all_digits-digits_from fuel (n / 10) ((48 + n % 10) ∷ acc))

pub int_of-decimal : (n : ℕ) → int_of (decimal n) ≡ n
unfolding int_of decimal
int_of-decimal n = int_from-digits_from (suc n) n [] (omega arith)

pub is_digits-decimal : (n : ℕ) → is_digits (decimal n) ≡ true
unfolding decimal
is_digits-decimal n = all_digits-digits_from (suc n) n [] (omega arith) (unfold all_digits in refl)
