-- ===== src/Lines/Laws.antt =====
-- Taking a text apart into lines and putting it together again, where \n is its only line break.
use raoffline_proxy.Prelude.{
  ℕ, ◌≡◌, refl, ap, ◌∙◌, Bool, true, false, ◌&&◌, ◌||◌, not, List, [], ◌∷◌, ◌++◌, append_assoc,
  append-nil, Text, All, arith, any, ◌==◌, if◌then◌else◌, is_empty, Bool-cases, ◌⊎◌, inl, inr,
}
use raoffline_proxy.Lines.{
  is_break, cons_code, lines_from, splitlines, join_lines, ends_with_newline,
}

-- A text without a break, and a text whose breaks are all \n.
abbrev pub IsLine : Text → Type 0
IsLine s = any is_break s ≡ false

abbrev pub IsPlain : Text → Type 0
IsPlain s = any (λ c. is_break c && not (c == 10)) s ≡ false

abbrev pub newline_if : Bool → Text
newline_if b = if b then 10 ∷ [] else []

-- Lines joined, with a newline at the end or without.
abbrev pub text_of : List Text → Bool → Text
text_of ls end = join_lines ls ++ newline_if end

pub any-append {ℓ} :
    {A : Type ℓ} (p : A → Bool) (xs ys : List A) → any p (xs ++ ys) ≡ any p xs || any p ys
unfolding any
any-append p [] ys = refl
any-append p (x ∷ xs) ys = ground (arith, any-append p xs ys)

pub IsLine-IsPlain : (s : Text) → IsLine s → IsPlain s
unfolding any
IsLine-IsPlain [] h = refl
IsLine-IsPlain (c ∷ s) h = ground (arith, IsLine-IsPlain s)

break-newline : (c : ℕ) → is_break c ≡ false → ((c == 13) ≡ false) × ((c == 10) ≡ false)
unfolding is_break
break-newline c h = (ground arith, ground arith)

lines_from-newline :
    (l s : Text) → IsLine l → lines_from false (l ++ 10 ∷ s) ≡ l ∷ lines_from false s
unfolding lines_from any cons_code
lines_from-newline [] s h = refl
lines_from-newline (c ∷ l) s h =
    let solid : is_break c ≡ false = ground arith in
    let codes = break-newline c solid in
    rw (codes.0, solid, lines_from-newline l s (ground arith)) refl

lines_from-line : (l : Text) → IsLine l → lines_from false l ≡ (if is_empty l then [] else l ∷ [])
unfolding lines_from any is_empty cons_code
lines_from-line [] h = refl
lines_from-line (c ∷ []) h = let solid : is_break c ≡ false = ground arith in rw (solid) refl
lines_from-line (c ∷ d ∷ l) h =
    let solid : is_break c ≡ false = ground arith in
    let codes = break-newline c solid in
    rw (solid, codes.0, lines_from-line (d ∷ l) (ground arith)) refl

cons_code-some :
    (c : ℕ) (ls : List Text) → (l : Text) × (later : List Text) × (cons_code c ls ≡ l ∷ later)
unfolding cons_code
cons_code-some c [] = (c ∷ [], [], refl)
cons_code-some c (l ∷ ls) = (c ∷ l, ls, refl)

lines_from-some :
    (c : ℕ) (s : Text) → (l : Text) × (ls : List Text) × (lines_from false (c ∷ s) ≡ l ∷ ls)
unfolding lines_from
lines_from-some c s = elim (Bool-cases (is_break c)) [
  | inl e ↦ ([], lines_from (c == 13) s, rw e refl)
  | inr e ↦
      let some_line = cons_code-some c (lines_from (c == 13) s) in
      (some_line.0, some_line.1, rw e some_line.2)
]

text_of-break :
    (ls : List Text) (end : Bool) (l : Text) (later : List Text)
    → ls ≡ l ∷ later
    → text_of ([] ∷ ls) end ≡ 10 ∷ text_of ls end
unfolding join_lines
text_of-break ls end l later h = rw h refl

text_of-cons_code :
    (c : ℕ) (ls : List Text) (end : Bool) (l : Text) (later : List Text)
    → ls ≡ l ∷ later
    → text_of (cons_code c ls) end ≡ c ∷ text_of ls end
unfolding cons_code join_lines
text_of-cons_code c [] end l later h = absurd cc
text_of-cons_code c (k ∷ []) end l later h = refl
text_of-cons_code c (k ∷ m ∷ ms) end l later h = refl

lines_from-break : (s : Text) → lines_from false (10 ∷ s) ≡ [] ∷ lines_from false s
unfolding lines_from
lines_from-break s = refl

lines_from-code :
    (c : ℕ) (s : Text)
    → is_break c ≡ false
    → lines_from false (c ∷ s) ≡ cons_code c (lines_from false s)
unfolding lines_from
lines_from-code c s h = rw (h, (break-newline c h).0) refl

-- A code of a plain text is no break, or a newline.
IsPlain-code : (c : ℕ) (s : Text) → IsPlain (c ∷ s) → ((c ≡ 10) ⊎ (is_break c ≡ false)) × IsPlain s
unfolding any
IsPlain-code c s h = elim (Bool-cases (c == 10)) [
  | inl e ↦ (inl (ground arith), ground arith)
  | inr e ↦ (inr (ground arith), ground arith)
]

text_of-lines_from : (s : Text) → IsPlain s → text_of (lines_from false s) (ends_with_newline s) ≡ s
unfolding ends_with_newline
text_of-lines_from [] h = unfold lines_from join_lines in refl
text_of-lines_from (c ∷ []) h = elim (IsPlain-code c [] h).0 [
  | inl e ↦ rw e (unfold lines_from join_lines in refl)
  | inr e ↦
      let codes = break-newline c e in
      rw (lines_from-code c [] e, codes.1) (unfold lines_from join_lines cons_code in refl)
]
text_of-lines_from (c ∷ d ∷ s) h =
    let (l, later, some_line) = lines_from-some d s in
    let rest = text_of-lines_from (d ∷ s) (IsPlain-code c (d ∷ s) h).1 in
    let end = ends_with_newline (d ∷ s) in
    elim (IsPlain-code c (d ∷ s) h).0 [
      | inl e ↦
          rw (e, lines_from-break (d ∷ s))
            (text_of-break (lines_from false (d ∷ s)) end l later some_line ∙ ap (λ t. 10 ∷ t) rest)
      | inr e ↦ rw (lines_from-code c (d ∷ s) e) (
          text_of-cons_code c (lines_from false (d ∷ s)) end l later some_line
          ∙ ap (λ t. c ∷ t) rest)
    ]

pub text_of-splitlines : (s : Text) → IsPlain s → text_of (splitlines s) (ends_with_newline s) ≡ s
unfolding splitlines
text_of-splitlines = text_of-lines_from

pub splitlines-some :
    (c : ℕ) (s : Text) → (l : Text) × (ls : List Text) × (splitlines (c ∷ s) ≡ l ∷ ls)
unfolding splitlines
splitlines-some = lines_from-some

cons_code-All-IsLine :
    (c : ℕ) (ls : List Text) → is_break c ≡ false → All IsLine ls → All IsLine (cons_code c ls)
unfolding cons_code any
cons_code-All-IsLine c [] h a = (ground arith, tt)
cons_code-All-IsLine c (l ∷ ls) h a = (ground (arith, a.0), a.1)

lines_from-All-IsLine : (after_cr : Bool) (s : Text) → All IsLine (lines_from after_cr s)
unfolding lines_from any
lines_from-All-IsLine after_cr [] = tt
lines_from-All-IsLine after_cr (c ∷ s) =
    let rest = lines_from-All-IsLine (c == 13) s in
    elim (Bool-cases (after_cr && (c == 10))) [
      | inl e ↦ rw (lines_from, e) rest
      | inr e ↦ elim (Bool-cases (is_break c)) [
        | inl b ↦ rw (lines_from, e, b) (refl, rest)
        | inr b ↦ rw (lines_from, e, b) (cons_code-All-IsLine c _ b rest)
      ]
    ]

pub splitlines-All-IsLine : (s : Text) → All IsLine (splitlines s)
unfolding splitlines
splitlines-All-IsLine s = lines_from-All-IsLine false s

-- The same lines, but for an empty one at the end.
abbrev pub SameLines : List Text → List Text → Type 0
SameLines ls ms = (ls ≡ ms) ⊎ ((ls ++ [] ∷ [] ≡ ms) ⊎ (ls ≡ ms ++ [] ∷ []))

SameLines-cons : (l : Text) (ls ms : List Text) → SameLines ls ms → SameLines (l ∷ ls) (l ∷ ms)
SameLines-cons l ls ms (inl e) = inl (ap (λ x. l ∷ x) e)
SameLines-cons l ls ms (inr (inl e)) = inr (inl (ap (λ x. l ∷ x) e))
SameLines-cons l ls ms (inr (inr e)) = inr (inr (ap (λ x. l ∷ x) e))

empty_or_line : (m : Text) → SameLines (if is_empty m then [] else m ∷ []) (m ∷ [])
unfolding is_empty
empty_or_line [] = inr (inl refl)
empty_or_line (c ∷ m) = inl refl

lines_from-text_of :
    (ls : List Text) (end : Bool) → All IsLine ls → SameLines (lines_from false (text_of ls end)) ls
unfolding join_lines
lines_from-text_of [] true h = unfold lines_from in inr (inr refl)
lines_from-text_of [] false h = unfold lines_from in inl refl
lines_from-text_of (l ∷ []) true h =
    rw (lines_from-newline l [] h.0) (unfold lines_from in inl refl)
lines_from-text_of (l ∷ []) false h = rw (append-nil l, lines_from-line l h.0) (empty_or_line l)
lines_from-text_of (l ∷ m ∷ ls) end h =
    rw
      (
        append_assoc l (10 ∷ join_lines (m ∷ ls)) (newline_if end),
        lines_from-newline l (text_of (m ∷ ls) end) h.0,
      )
      (SameLines-cons l _ (m ∷ ls) (lines_from-text_of (m ∷ ls) end h.1))

pub splitlines-text_of :
    (ls : List Text) (end : Bool) → All IsLine ls → SameLines (splitlines (text_of ls end)) ls
unfolding splitlines
splitlines-text_of = lines_from-text_of

pub text_of-IsPlain : (ls : List Text) (end : Bool) → All IsLine ls → IsPlain (text_of ls end)
unfolding join_lines any is_break
text_of-IsPlain [] true h = refl
text_of-IsPlain [] false h = refl
text_of-IsPlain (l ∷ []) true h = any-append _ l (10 ∷ []) ∙ ground (arith, IsLine-IsPlain l h.0)
text_of-IsPlain (l ∷ []) false h = rw (append-nil l) (IsLine-IsPlain l h.0)
text_of-IsPlain (l ∷ m ∷ ls) end h =
    rw (append_assoc l (10 ∷ join_lines (m ∷ ls)) (newline_if end)) (
      any-append _ l (10 ∷ text_of (m ∷ ls) end)
      ∙ ground (arith, IsLine-IsPlain l h.0, text_of-IsPlain (m ∷ ls) end h.1))

-- A line put behind the lines of a text that is not empty.
pub text_of-snoc :
    (l : Text) (ls : List Text) (m : Text) (end : Bool)
    → text_of ((l ∷ ls) ++ m ∷ []) end ≡ (join_lines (l ∷ ls) ++ (10 ∷ m)) ++ newline_if end
unfolding join_lines
text_of-snoc l [] m end = refl
text_of-snoc l (k ∷ ls) m end =
    append_assoc l (10 ∷ join_lines ((k ∷ ls) ++ m ∷ [])) (newline_if end)
    ∙ ap (λ t. l ++ (10 ∷ t)) (text_of-snoc k ls m end)
    ∙ simp append_assoc
