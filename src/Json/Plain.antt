-- ===== src/Json/Plain.antt =====
-- A codec that keeps its promise: a prefix code of JSON values over lists of numbers. It shows that
-- the hypothesis of `Json.Codec` can hold.
use raoffline_proxy.Prelude.{
  ℕ, zero, suc, ◌+◌, ◌≤◌, ◌≡◌, refl, Bool, true, false, Option, none, some, [], ◌∷◌, ◌++◌, Text,
  length, length-append, arith,
}
use raoffline_proxy.Json.{
  Json, Items, Fields, null, bool, num, real, str, arr, obj, nil, cons, end, field, Codec,
}

bit : Bool → ℕ
bit true = 1
bit false = 0

-- A text is written behind its length.
sized : Text → Text → Text
sized s rest = length s ∷ (s ++ rest)

mutual
  unfolding bit sized

  write : Json → Text → Text
  write null rest = 0 ∷ rest
  write (bool b) rest = 1 ∷ bit b ∷ rest
  write (num n) rest = 2 ∷ n ∷ rest
  write (real s) rest = 3 ∷ sized s rest
  write (str s) rest = 4 ∷ sized s rest
  write (arr xs) rest = 5 ∷ write_items xs rest
  write (obj fs) rest = 6 ∷ write_fields fs rest

  write_items : Items → Text → Text
  write_items nil rest = 0 ∷ rest
  write_items (cons v xs) rest = 1 ∷ write v (write_items xs rest)

  write_fields : Fields → Text → Text
  write_fields end rest = 0 ∷ rest
  write_fields (field k v fs) rest = 1 ∷ sized k (write v (write_fields fs rest))

-- The first `n` codes and what follows.
take_codes : ℕ → Text → Text × Text
take_codes zero s = ([], s)
take_codes (suc n) [] = ([], [])
take_codes (suc n) (c ∷ s) = let (a, b) = take_codes n s in (c ∷ a, b)

take_codes-append : (s rest : Text) → take_codes (length s) (s ++ rest) ≡ (s, rest)
unfolding take_codes
take_codes-append [] rest = refl
take_codes-append (c ∷ s) rest = rw (take_codes-append s rest)

read_text : (Text → Json) → Text → Option (Json × Text)
unfolding take_codes
read_text make [] = none
read_text make (n ∷ s) = let (a, b) = take_codes n s in some (make a, b)

-- What a value's first code announces; the readers of the parts are arguments.
read_tag :
    (Text → Option (Items × Text))
    → (Text → Option (Fields × Text))
    → ℕ
    → Text
    → Option (Json × Text)
unfolding read_text
read_tag items fields zero s = some (null, s)
read_tag items fields (suc zero) [] = none
read_tag items fields (suc zero) (b ∷ s) = some (bool (elim b [ zero ↦ false | suc n ↦ true ]), s)
read_tag items fields (suc (suc zero)) [] = none
read_tag items fields (suc (suc zero)) (n ∷ s) = some (num n, s)
read_tag items fields (suc (suc (suc zero))) s = read_text real s
read_tag items fields (suc (suc (suc (suc zero)))) s = read_text str s
read_tag items fields (suc (suc (suc (suc (suc zero))))) s = elim (items s) [
  | none ↦ none
  | some (xs, r) ↦ some (arr xs, r)
]
read_tag items fields (suc (suc (suc (suc (suc (suc n)))))) s = elim (fields s) [
  | none ↦ none
  | some (fs, r) ↦ some (obj fs, r)
]

mutual
  unfolding read_tag take_codes

  read : ℕ → Text → Option (Json × Text)
  read zero s = none
  read (suc fuel) [] = none
  read (suc fuel) (c ∷ s) = read_tag (read_items fuel) (read_fields fuel) c s

  read_items : ℕ → Text → Option (Items × Text)
  read_items zero s = none
  read_items (suc fuel) [] = none
  read_items (suc fuel) (zero ∷ s) = some (nil, s)
  read_items (suc fuel) (suc c ∷ s) = elim (read fuel s) [
    | none ↦ none
    | some (v, r) ↦ elim (read_items fuel r) [ none ↦ none | some (xs, r') ↦ some (cons v xs, r') ]
  ]

  read_fields : ℕ → Text → Option (Fields × Text)
  read_fields zero s = none
  read_fields (suc fuel) [] = none
  read_fields (suc fuel) (zero ∷ s) = some (end, s)
  read_fields (suc fuel) (suc c ∷ []) = none
  read_fields (suc fuel) (suc c ∷ n ∷ s) =
      let (k, after) = take_codes n s in
      elim (read fuel after) [
        | none ↦ none
        | some (v, r) ↦ elim (read_fields fuel r) [
          | none ↦ none
          | some (fs, r') ↦ some (field k v fs, r')
        ]
      ]

mutual
  depth : Json → ℕ
  depth (arr xs) = suc (depth_items xs)
  depth (obj fs) = suc (depth_fields fs)
  depth _ = 1

  depth_items : Items → ℕ
  depth_items nil = 1
  depth_items (cons v xs) = suc (depth v + depth_items xs)

  depth_fields : Fields → ℕ
  depth_fields end = 1
  depth_fields (field k v fs) = suc (depth v + depth_fields fs)

mutual
  unfolding write depth

  depth-le : (v : Json) (rest : Text) → depth v + length rest ≤ length (write v rest)
  depth-le null rest = omega arith
  depth-le (bool b) rest = omega arith
  depth-le (num n) rest = omega arith
  depth-le (real s) rest = omega (arith, length-append s rest)
  depth-le (str s) rest = omega (arith, length-append s rest)
  depth-le (arr xs) rest = omega (arith, depth_items-le xs rest)
  depth-le (obj fs) rest = omega (arith, depth_fields-le fs rest)

  depth_items-le :
      (xs : Items) (rest : Text) → depth_items xs + length rest ≤ length (write_items xs rest)
  depth_items-le nil rest = omega arith
  depth_items-le (cons v xs) rest =
      omega (arith, depth-le v (write_items xs rest), depth_items-le xs rest)

  depth_fields-le :
      (fs : Fields) (rest : Text) → depth_fields fs + length rest ≤ length (write_fields fs rest)
  depth_fields-le end rest = omega arith
  depth_fields-le (field k v fs) rest = omega (
    arith,
    length-append k (write v (write_fields fs rest)),
    depth-le v (write_fields fs rest),
    depth_fields-le fs rest,
  )

depth_pos : (v : Json) → 1 ≤ depth v
unfolding depth
depth_pos (arr xs) = omega arith
depth_pos (obj fs) = omega arith
depth_pos v = omega arith

mutual
  unfolding write depth read

  read-write :
      (v : Json) (fuel : ℕ) (rest : Text)
      → depth v ≤ fuel
      → read fuel (write v rest) ≡ some (v, rest)
  read-write v zero rest h = absurd (omega (arith, depth_pos v))
  read-write null (suc fuel) rest h = refl
  read-write (bool true) (suc fuel) rest h = refl
  read-write (bool false) (suc fuel) rest h = refl
  read-write (num n) (suc fuel) rest h = refl
  read-write (real s) (suc fuel) rest h = rw (take_codes-append s rest)
  read-write (str s) (suc fuel) rest h = rw (take_codes-append s rest)
  read-write (arr xs) (suc fuel) rest h = rw (read_items-write xs fuel rest (omega arith))
  read-write (obj fs) (suc fuel) rest h = rw (read_fields-write fs fuel rest (omega arith))

  read_items-write :
      (xs : Items) (fuel : ℕ) (rest : Text)
      → depth_items xs ≤ fuel
      → read_items fuel (write_items xs rest) ≡ some (xs, rest)
  read_items-write nil zero rest h = absurd (omega arith)
  read_items-write (cons v xs) zero rest h = absurd (omega arith)
  read_items-write nil (suc fuel) rest h = refl
  read_items-write (cons v xs) (suc fuel) rest h =
      rw (read-write v fuel (write_items xs rest) (omega arith), read_items)
        (rw (read_items-write xs fuel rest (omega arith)))

  read_fields-write :
      (fs : Fields) (fuel : ℕ) (rest : Text)
      → depth_fields fs ≤ fuel
      → read_fields fuel (write_fields fs rest) ≡ some (fs, rest)
  read_fields-write end zero rest h = absurd (omega arith)
  read_fields-write (field k v fs) zero rest h = absurd (omega arith)
  read_fields-write end (suc fuel) rest h = refl
  read_fields-write (field k v fs) (suc fuel) rest h =
      rw (take_codes-append k (write v (write_fields fs rest))) (
        rw (read-write v fuel (write_fields fs rest) (omega arith), read_fields)
          (rw (read_fields-write fs fuel rest (omega arith))
            (rw (take_codes-append k (write v (write_fields fs rest))))))

unfoldable pub dumps : Json → Text
unfolding write
dumps v = write v []

-- Enough fuel is as many steps as there are codes.
unfoldable pub loads : Text → Option Json
unfolding read
loads s = elim (read (length s) s) [ none ↦ none | some (v, rest) ↦ some v ]

pub loads-write : (v : Json) → loads (dumps v) ≡ some v
unfolding loads dumps
loads-write v = rw (read-write v (length (write v [])) [] (omega (arith, depth-le v [])), loads)

abbrev pub plain_codec : Codec
plain_codec = record { dumps = dumps; loads = loads; loads-dumps = loads-write }
