-- ===== src/EmulatorConfig/BatoceraConf/Edits.antt =====
-- The edits of linux/raofflineproxy/batocera_conf.py on whole files, whose only line break is the newline.
use raoffline_proxy.Prelude.{
  ◌≡◌, refl, sym, ap, ◌∙◌, Bool, true, false, ◌&&◌, ◌||◌, not, Option, none, some, List, [], ◌∷◌,
  ◌++◌, append_assoc, append-nil, Text, codes, All, All-snoc, arith, any, if◌then◌else◌, is_empty,
  Bool-cases, Option-cases, inl, inr, starts_with, drop_prefix,
}
use raoffline_proxy.Lines.{is_break, splitlines, join_lines, ends_with_newline}
use raoffline_proxy.Lines.Laws.{
  IsLine, IsPlain, SameLines, text_of, newline_if, any-append, text_of-splitlines,
  splitlines-All-IsLine, splitlines-text_of, splitlines-some, text_of-IsPlain, text_of-snoc,
}
use raoffline_proxy.EmulatorConfig.BatoceraConf.{
  key_prefix, setting, value_in, extract_value, replace_line, write_lines, upsert_value,
  restore_lines, restore_value, newline_of,
}
use raoffline_proxy.EmulatorConfig.BatoceraConf.Laws.{
  IsKey, updated, if_there, value_in-replace, value_in-snoc, value_in-restore,
}

IsKey-IsLine : (k : Text) → IsKey k → IsLine k
unfolding any
IsKey-IsLine [] h = refl
IsKey-IsLine (c ∷ k) h = ground (arith, IsKey-IsLine k)

setting-IsLine : (k v : Text) → IsKey k → IsLine v → IsLine (setting k v)
unfolding any is_break
setting-IsLine k v h i = any-append is_break k (61 ∷ v) ∙ ground (arith, IsKey-IsLine k h)

no_key_empty : (j : Text) → starts_with [] (key_prefix j) ≡ false
unfolding starts_with
no_key_empty [] = refl
no_key_empty (c ∷ j) = refl

value_in-snoc_empty :
    (j : Text) (ls : List Text)
    → value_in (key_prefix j) (ls ++ [] ∷ []) ≡ value_in (key_prefix j) ls
unfolding value_in
value_in-snoc_empty j [] = rw (no_key_empty j) refl
value_in-snoc_empty j (l ∷ ls) = rw (value_in-snoc_empty j ls) refl

value_in-SameLines :
    (j : Text) (ls ms : List Text)
    → SameLines ls ms
    → value_in (key_prefix j) ls ≡ value_in (key_prefix j) ms
value_in-SameLines j ls ms (inl e) = ap (value_in (key_prefix j)) e
value_in-SameLines j ls ms (inr (inl e)) =
    sym (value_in-snoc_empty j ls) ∙ ap (value_in (key_prefix j)) e
value_in-SameLines j ls ms (inr (inr e)) = ap (value_in (key_prefix j)) e ∙ value_in-snoc_empty j ms

-- What a file reads as when it is put together from lines.
extract-text_of :
    (ls : List Text) (end : Bool) (j : Text)
    → All IsLine ls
    → extract_value (text_of ls end) j ≡ value_in (key_prefix j) ls
unfolding extract_value
extract-text_of ls end j h =
    value_in-SameLines j (splitlines (text_of ls end)) ls (splitlines-text_of ls end h)

replace-All-IsLine :
    (p line : Text) (ls ms : List Text)
    → IsLine line
    → All IsLine ls
    → replace_line p line ls ≡ some ms
    → All IsLine ms
unfolding replace_line
replace-All-IsLine p line [] ms i h e = absurd cc
replace-All-IsLine p line (l ∷ ls) ms i h e = elim (Bool-cases (starts_with l p)) [
  | inl here ↦ let same : line ∷ ls ≡ ms = ground arith in rw (← same) (i, h.1)
  | inr there ↦ elim (Option-cases (replace_line p line ls)) [
    | inl none_there ↦ absurd (ground arith)
    | inr (ns, found) ↦
        let same : l ∷ ns ≡ ms = ground arith in
        rw (← same) (h.0, replace-All-IsLine p line ls ns i h.1 found)
  ]
]

restore-All-IsLine :
    (k p : Text) (value : Option Text) (ls : List Text)
    → ((v : Text) → value ≡ some v → IsLine (setting k v))
    → All IsLine ls
    → All IsLine (restore_lines k p value ls)
unfolding restore_lines
restore-All-IsLine k p value [] i h = tt
restore-All-IsLine k p none (l ∷ ls) i h = elim (Bool-cases (starts_with l p)) [
  | inl here ↦ rw (restore_lines, here) (restore-All-IsLine k p none ls i h.1)
  | inr there ↦ rw (restore_lines, there) (h.0, restore-All-IsLine k p none ls i h.1)
]
restore-All-IsLine k p (some v) (l ∷ ls) i h = elim (Bool-cases (starts_with l p)) [
  | inl here ↦
      rw (restore_lines, here) (i v refl, restore-All-IsLine k p none ls (λ w e. absurd cc) h.1)
  | inr there ↦ rw (restore_lines, there) (h.0, restore-All-IsLine k p (some v) ls i h.1)
]

-- A line put behind a text that is not empty.
append_to :
    (t line l : Text) (ls : List Text) (end : Bool)
    → text_of (l ∷ ls) end ≡ t
    → (if end then t else t ++ codes "\n") ++ line ++ newline_of end
      ≡ text_of ((l ∷ ls) ++ line ∷ []) end
append_to t line l ls true h = rw (← h) (
    ap (λ u. u ++ codes "\n") (append_assoc (join_lines (l ∷ ls)) (codes "\n") line)
    ∙ sym (text_of-snoc l ls line true))
append_to t line l ls false h = rw (← h) (
    ap (λ u. (u ++ codes "\n") ++ line ++ []) (append-nil (join_lines (l ∷ ls)))
    ∙ ap (λ u. u ++ []) (append_assoc (join_lines (l ∷ ls)) (codes "\n") line)
    ∙ sym (text_of-snoc l ls line false))

or_false : (b : Bool) → b || false ≡ b
or_false true = refl
or_false false = refl

append_line :
    (content line : Text)
    → IsPlain content
    → let whole = ends_with_newline content || is_empty content in
      (if whole then content else content ++ codes "\n") ++ line ++ newline_of whole
      ≡ text_of (splitlines content ++ line ∷ []) whole
unfolding is_empty
append_line [] line h = unfold splitlines ends_with_newline join_lines in refl
append_line (c ∷ s) line h =
    let (l, ls, e) = splitlines-some c s in
    let whole =
      ap (text_of (l ∷ ls)) (or_false (ends_with_newline (c ∷ s)))
      ∙ ap (λ t. text_of t (ends_with_newline (c ∷ s))) (sym e)
      ∙ text_of-splitlines (c ∷ s) h in
    rw e (append_to (c ∷ s) line l ls (ends_with_newline (c ∷ s) || false) whole)

-- A file that was put together from lines, and what it reads as.
abbrev IsMade : Text → (Text → Option Text) → Type 0
IsMade t reads =
    (ms : List Text) × (end : Bool) × (t ≡ text_of ms end)
    × All IsLine ms
    × ((j : Text) → IsKey j → value_in (key_prefix j) ms ≡ reads j)

IsMade-IsPlain : (t : Text) (reads : Text → Option Text) → IsMade t reads → IsPlain t
IsMade-IsPlain t reads (ms, end, e, lines, h) = rw e (text_of-IsPlain ms end lines)

extract-IsMade :
    (t : Text) (reads : Text → Option Text) (j : Text)
    → IsKey j
    → IsMade t reads
    → extract_value t j ≡ reads j
extract-IsMade t reads j i (ms, end, e, lines, h) =
    ap (λ u. extract_value u j) e ∙ extract-text_of ms end j lines ∙ h j i

upsert-IsMade :
    (content k v : Text)
    → IsPlain content
    → IsKey k
    → IsLine v
    → IsMade (upsert_value content k v) (λ j. updated k j (some v) (extract_value content j))
unfolding extract_value
upsert-IsMade content k v h i line =
    let lines = splitlines-All-IsLine content in
    let written : (o : Option (List Text))
        → replace_line (key_prefix k) (setting k v) (splitlines content) ≡ o
        → upsert_value content k v ≡ write_lines content (setting k v) o =
      λ o e. unfold upsert_value in ap (write_lines content (setting k v)) e in
    elim (Option-cases (replace_line (key_prefix k) (setting k v) (splitlines content))) [
      | inl e ↦ (
        splitlines content ++ setting k v ∷ [],
        ends_with_newline content || is_empty content,
        written none e ∙ unfold write_lines in append_line content (setting k v) h,
        All-snoc IsLine (splitlines content) (setting k v) lines (setting-IsLine k v i line),
        λ j n. value_in-snoc k j i n v (splitlines content) e,
      )
      | inr (ms, e) ↦ (
        ms,
        ends_with_newline content,
        written (some ms) e ∙ unfold write_lines in refl,
        replace-All-IsLine (key_prefix k) (setting k v) (splitlines content) ms
            (setting-IsLine k v i line) lines e,
        λ j n. value_in-replace k j i n v (splitlines content) ms e,
      )
    ]

if-newline : (t : Text) (b : Bool) → (if b then t ++ codes "\n" else t) ≡ t ++ newline_if b
if-newline t true = refl
if-newline t false = sym (append-nil t)

restore-IsMade :
    (content k : Text) (value : Option Text)
    → IsKey k
    → ((v : Text) → value ≡ some v → IsLine v)
    → IsMade
        (restore_value content k value)
        (λ j. updated k j (if_there (extract_value content k) value) (extract_value content j))
unfolding extract_value
restore-IsMade content k value i line =
    let ms = restore_lines k (key_prefix k) value (splitlines content) in
    (
      ms,
      ends_with_newline content && not (is_empty (join_lines ms)),
      unfold restore_value in
          if-newline _ (ends_with_newline content && not (is_empty (join_lines ms))),
      restore-All-IsLine k (key_prefix k) value (splitlines content)
          (λ v e. setting-IsLine k v i (line v e)) (splitlines-All-IsLine content),
      λ j n. value_in-restore k j i n value (splitlines content),
    )

-- A file whose only line break is the newline, and what it reads as.
abbrev pub Reads : Text → (Text → Option Text) → Type 0
Reads t reads = IsPlain t × ((j : Text) → IsKey j → extract_value t j ≡ reads j)

pub upsert-Reads :
    (t k v : Text) (reads : Text → Option Text)
    → IsKey k
    → IsLine v
    → Reads t reads
    → Reads (upsert_value t k v) (λ j. updated k j (some v) (reads j))
upsert-Reads t k v reads i line h =
    let made = upsert-IsMade t k v h.0 i line in
    (
      IsMade-IsPlain _ _ made,
      λ j n. extract-IsMade _ _ j n made ∙ ap (updated k j (some v)) (h.1 j n),
    )

pub restore-Reads :
    (t k : Text) (value : Option Text) (reads : Text → Option Text)
    → IsKey k
    → ((v : Text) → value ≡ some v → IsLine v)
    → Reads t reads
    → Reads (restore_value t k value) (λ j. updated k j (if_there (reads k) value) (reads j))
restore-Reads t k value reads i line h =
    let made = restore-IsMade t k value i line in
    (
      IsMade-IsPlain _ _ made,
      λ j n.
          extract-IsMade _ _ j n made
          ∙ ap (λ o. updated k j (if_there o value) (extract_value t j)) (h.1 k i)
          ∙ ap (updated k j (if_there (reads k) value)) (h.1 j n),
    )

drop_prefix-IsLine : (l p : Text) → IsLine l → IsLine (drop_prefix l p)
unfolding drop_prefix any
drop_prefix-IsLine l [] h = h
drop_prefix-IsLine [] (c ∷ p) h = refl
drop_prefix-IsLine (d ∷ l) (c ∷ p) h = drop_prefix-IsLine l p (ground arith)

value_in-IsLine :
    (p : Text) (ls : List Text) (v : Text) → All IsLine ls → value_in p ls ≡ some v → IsLine v
unfolding value_in
value_in-IsLine p [] v h e = absurd cc
value_in-IsLine p (l ∷ ls) v h e = elim (Bool-cases (starts_with l p)) [
  | inl here ↦
      let same : drop_prefix l p ≡ v = ground arith in rw (← same) (drop_prefix-IsLine l p h.0)
  | inr there ↦ value_in-IsLine p ls v h.1 (ground arith)
]

pub extract-IsLine : (t k v : Text) → extract_value t k ≡ some v → IsLine v
unfolding extract_value
extract-IsLine t k v e = value_in-IsLine (key_prefix k) (splitlines t) v (splitlines-All-IsLine t) e
