-- ===== src/FormParams/Quote.antt =====
-- `quote_plus` and `unquote_plus` of Python's `urllib.parse`, on the bytes of UTF-8.
use raoffline_proxy.Prelude.{
  ℕ, ◌+◌, ◌-◌, ◌*◌, ◌/◌, ◌%◌, ◌<◌, ◌≡◌, ◌≢◌, refl, ap, Bool, true, ◌&&◌, ◌||◌, Option, none, some,
  ◌∙◌, [], ◌∷◌, ◌++◌, Text, ltb, leb, ◌==◌, if◌then◌else◌, arith, All, Bool-cases, inl, inr,
}

-- Letters, digits and "_.-~" stand for themselves.
unfoldable pub is_safe : ℕ → Bool
is_safe c =
    (leb 48 c && leb c 57)
    || ((leb 65 c && leb c 90)
        || ((leb 97 c && leb c 122) || ((c == 95) || ((c == 46) || ((c == 45) || (c == 126))))))

unfoldable pub hex_digit : ℕ → ℕ
hex_digit d = if ltb d 10 then 48 + d else 55 + d

unfoldable pub quote_code : ℕ → Text
unfolding is_safe hex_digit
quote_code c =
    if is_safe c
    then c ∷ []
    else if c == 32
    then 43 ∷ []
    else 37 ∷ hex_digit (c / 16) ∷ hex_digit (c % 16) ∷ []

unfoldable pub quote_plus : Text → Text
unfolding quote_code
quote_plus [] = []
quote_plus (c ∷ s) = quote_code c ++ quote_plus s

unfoldable pub hex_value : ℕ → Option ℕ
hex_value c =
    if leb 48 c && leb c 57
    then some (c - 48)
    else if leb 65 c && leb c 70
    then some (c - 55)
    else if leb 97 c && leb c 102
    then some (c - 87)
    else none

-- The byte of two hexadecimal digits.
unfoldable pub hex_pair : ℕ → ℕ → Option ℕ
unfolding hex_value
hex_pair a b = elim (hex_value a) [
  | none ↦ none
  | some x ↦ elim (hex_value b) [ none ↦ none | some y ↦ some (x * 16 + y) ]
]

-- An escape that is none is kept.
unfoldable pub unquote_plus : Text → Text
unfolding hex_pair
unquote_plus [] = []
unquote_plus (c ∷ []) = if c == 43 then 32 ∷ [] else c ∷ []
unquote_plus (c ∷ d ∷ []) =
    let rest = unquote_plus (d ∷ []) in if c == 43 then 32 ∷ rest else c ∷ rest
unquote_plus (c ∷ d ∷ e ∷ s) =
    let rest = unquote_plus (d ∷ e ∷ s) in
    let after = unquote_plus s in
    if c == 43
    then 32 ∷ rest
    else if c == 37
    then elim (hex_pair d e) [ none ↦ c ∷ rest | some b ↦ b ∷ after ]
    else c ∷ rest

unquote-plain : (c : ℕ) (s : Text) → c ≢ 43 → c ≢ 37 → unquote_plus (c ∷ s) ≡ c ∷ unquote_plus s
unfolding unquote_plus
unquote-plain c [] p q = ground arith
unquote-plain c (d ∷ []) p q = ground arith
unquote-plain c (d ∷ e ∷ s) p q = ground arith

unquote-blank : (s : Text) → unquote_plus (43 ∷ s) ≡ 32 ∷ unquote_plus s
unfolding unquote_plus
unquote-blank [] = refl
unquote-blank (d ∷ []) = refl
unquote-blank (d ∷ e ∷ s) = refl

hex_value-digit : (d : ℕ) → d < 16 → hex_value (hex_digit d) ≡ some d
unfolding hex_value hex_digit
hex_value-digit d h = ground arith

hex_pair-digits : (c : ℕ) → c < 256 → hex_pair (hex_digit (c / 16)) (hex_digit (c % 16)) ≡ some c
unfolding hex_pair
hex_pair-digits c h =
    rw (hex_value-digit (c / 16) (omega arith), hex_value-digit (c % 16) (omega arith), hex_pair)
      (ap some (omega arith))

unquote-quote_code :
    (c : ℕ) (s : Text) → c < 256 → unquote_plus (quote_code c ++ s) ≡ c ∷ unquote_plus s
unfolding quote_code
unquote-quote_code c s h = elim (Bool-cases (is_safe c)) [
  | inl safe ↦
      rw safe (unquote-plain c s (unfold is_safe in ground arith) (unfold is_safe in ground arith))
  | inr unsafe ↦ elim (Bool-cases (c == 32)) [
    | inl blank ↦ rw (unsafe, blank) (unquote-blank s ∙ ap (λ k. k ∷ unquote_plus s) (ground arith))
    | inr other ↦ rw (unsafe, other) (unfold unquote_plus in rw (hex_pair-digits c h))
  ]
]

-- A byte text comes back from its escaped form.
pub unquote-quote : (s : Text) → All (λ c. c < 256) s → unquote_plus (quote_plus s) ≡ s
unfolding quote_plus
unquote-quote [] h = unfold unquote_plus in refl
unquote-quote (c ∷ s) h = unquote-quote_code c (quote_plus s) h.0 ∙ ap (◌∷◌ c) (unquote-quote s h.1)

-- No separator stands in an escaped text.
abbrev pub IsPlain : ℕ → Type 0
IsPlain c = (c ≢ 38) × (c ≢ 61)

safe-IsPlain : (c : ℕ) → is_safe c ≡ true → IsPlain c
unfolding is_safe
safe-IsPlain c h = (ground arith, ground arith)

hex_digit-IsPlain : (d : ℕ) → d < 16 → IsPlain (hex_digit d)
unfolding hex_digit
hex_digit-IsPlain d h = (ground arith, ground arith)

quote_code-IsPlain : (c : ℕ) (s : Text) → c < 256 → All IsPlain s → All IsPlain (quote_code c ++ s)
unfolding quote_code
quote_code-IsPlain c s b h = elim (Bool-cases (is_safe c)) [
  | inl safe ↦ rw safe (safe-IsPlain c safe, h)
  | inr unsafe ↦ elim (Bool-cases (c == 32)) [
    | inl blank ↦ rw (unsafe, blank) (omega arith, h)
    | inr other ↦
        rw (unsafe, other)
          (
            omega arith,
            (
              hex_digit-IsPlain (c / 16) (omega arith),
              (hex_digit-IsPlain (c % 16) (omega arith), h),
            ),
          )
  ]
]

pub quote-IsPlain : (s : Text) → All (λ c. c < 256) s → All IsPlain (quote_plus s)
unfolding quote_plus
quote-IsPlain [] h = tt
quote-IsPlain (c ∷ s) h = quote_code-IsPlain c (quote_plus s) h.0 (quote-IsPlain s h.1)
