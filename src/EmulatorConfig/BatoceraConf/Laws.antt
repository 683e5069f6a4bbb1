-- ===== src/EmulatorConfig/BatoceraConf/Laws.antt =====
-- What the edits of linux/raofflineproxy/batocera_conf.py do to the values of a file.
use raoffline_proxy.Prelude.{
  ◌≡◌, refl, sym, ap, ◌∙◌, true, false, ◌||◌, Option, none, some, List, [], ◌∷◌, ◌++◌, append_assoc,
  Text, codes, arith, any, ◌==◌, if◌then◌else◌, Bool-cases, Option-cases, inl, inr, text_eq,
  text_eq_iff, starts_with, drop_prefix, drop_prefix-append,
}
use raoffline_proxy.Lines.{is_break}
use raoffline_proxy.EmulatorConfig.BatoceraConf.{
  key_prefix, setting, value_in, replace_line, restore_lines,
}

-- A key has neither a line break nor the sign that ends it.
abbrev pub IsKey : Text → Type 0
IsKey k = any (λ c. is_break c || (c == 61)) k ≡ false

starts_with-setting :
    (k j v : Text) → IsKey k → IsKey j → starts_with (setting k v) (key_prefix j) ≡ text_eq k j
unfolding starts_with text_eq any
starts_with-setting [] [] v h i = refl
starts_with-setting [] (d ∷ j) v h i = ground arith
starts_with-setting (c ∷ k) [] v h i = ground arith
starts_with-setting (c ∷ k) (d ∷ j) v h i =
    ground (arith, starts_with-setting k j v (ground arith) (ground arith))

starts_with_split : (l p : Text) → starts_with l p ≡ true → l ≡ p ++ drop_prefix l p
unfolding starts_with drop_prefix
starts_with_split l [] h = refl
starts_with_split [] (c ∷ p) h = absurd cc
starts_with_split (d ∷ l) (c ∷ p) h = ground (arith, starts_with_split l p (ground arith))

drop_prefix-setting : (k v : Text) → drop_prefix (setting k v) (key_prefix k) ≡ v
drop_prefix-setting k v = rw (← append_assoc k (codes "=") v) (drop_prefix-append (key_prefix k) v)

-- A line of one key is a line of another only if they are the same.
starts_with_key :
    (l k j : Text)
    → IsKey k
    → IsKey j
    → starts_with l (key_prefix k) ≡ true
    → starts_with l (key_prefix j) ≡ text_eq k j
starts_with_key l k j h i s =
    ap (λ t. starts_with t (key_prefix j))
      (starts_with_split l (key_prefix k) s ∙ append_assoc k (codes "=") _)
    ∙ starts_with-setting k j (drop_prefix l (key_prefix k)) h i

value_in-setting :
    (k j v : Text) (ls : List Text)
    → IsKey k
    → IsKey j
    → value_in (key_prefix j) (setting k v ∷ ls)
      ≡ (if text_eq k j then some v else value_in (key_prefix j) ls)
unfolding value_in
value_in-setting k j v ls h i = elim (Bool-cases (text_eq k j)) [
  | inl same ↦
      let e : k ≡ j = (text_eq_iff k j).0 same in
      rw (starts_with-setting k j v h i, same)
        (ap some
          (ap (λ t. drop_prefix (setting k v) (key_prefix t)) (sym e) ∙ drop_prefix-setting k v))
  | inr apart ↦ rw (starts_with-setting k j v h i, apart) refl
]

value_in-other :
    (k j l : Text) (ls : List Text)
    → IsKey k
    → IsKey j
    → starts_with l (key_prefix k) ≡ true
    → text_eq k j ≡ false
    → value_in (key_prefix j) (l ∷ ls) ≡ value_in (key_prefix j) ls
unfolding value_in
value_in-other k j l ls h i s apart = rw (starts_with_key l k j h i s ∙ apart) refl

-- A line that is not the key's may stand before what two lists agree on.
value_in-cons :
    (p l : Text) (ls ms : List Text)
    → value_in p ls ≡ value_in p ms
    → value_in p (l ∷ ls) ≡ value_in p (l ∷ ms)
unfolding value_in
value_in-cons p l ls ms e = rw e refl

-- What `j` reads once `k` has the new value.
abbrev pub updated : Text → Text → Option Text → Option Text → Option Text
updated k j new old = if text_eq k j then new else old

-- A value is restored only where the key was.
abbrev pub if_there : Option Text → Option Text → Option Text
if_there none value = none
if_there (some old) value = value

if_there-none : (o : Option Text) → if_there o none ≡ none
if_there-none none = refl
if_there-none (some v) = refl

module _ (k j : Text) (h : IsKey k) (i : IsKey j) where
  updated-cons :
      (l : Text) (ls ms : List Text) (new : Option Text)
      → starts_with l (key_prefix k) ≡ false
      → value_in (key_prefix j) ms ≡ updated k j new (value_in (key_prefix j) ls)
      → value_in (key_prefix j) (l ∷ ms) ≡ updated k j new (value_in (key_prefix j) (l ∷ ls))
  unfolding value_in
  updated-cons l ls ms new n e = elim (Bool-cases (text_eq k j)) [
    | inl same ↦
        let eq : k ≡ j = (text_eq_iff k j).0 same in
        let none_here : starts_with l (key_prefix j) ≡ false =
          ap (λ t. starts_with l (key_prefix t)) (sym eq) ∙ n in
        let new_there : value_in (key_prefix j) ms ≡ new = ground (arith, e) in
        rw (none_here, same) new_there
    | inr apart ↦
        let old_there : value_in (key_prefix j) ms ≡ value_in (key_prefix j) ls =
          ground (arith, e) in
        rw (apart, old_there) refl
  ]

  updated-here :
      (v l : Text) (ls : List Text)
      → starts_with l (key_prefix k) ≡ true
      → value_in (key_prefix j) (setting k v ∷ ls)
        ≡ updated k j (some v) (value_in (key_prefix j) (l ∷ ls))
  updated-here v l ls s = value_in-setting k j v ls h i ∙ elim (Bool-cases (text_eq k j)) [
    | inl same ↦ rw same refl
    | inr apart ↦ rw apart (sym (value_in-other k j l ls h i s apart))
  ]

  pub value_in-replace :
      (v : Text) (ls ms : List Text)
      → replace_line (key_prefix k) (setting k v) ls ≡ some ms
      → value_in (key_prefix j) ms ≡ updated k j (some v) (value_in (key_prefix j) ls)
  unfolding replace_line
  value_in-replace v [] ms e = absurd cc
  value_in-replace v (l ∷ ls) ms e = elim (Bool-cases (starts_with l (key_prefix k))) [
    | inl here ↦
        let same : setting k v ∷ ls ≡ ms = ground arith in
        ap (value_in (key_prefix j)) (sym same) ∙ updated-here v l ls here
    | inr there ↦ elim (Option-cases (replace_line (key_prefix k) (setting k v) ls)) [
      | inl none_there ↦ absurd (ground arith)
      | inr (ns, found) ↦
          let same : l ∷ ns ≡ ms = ground arith in
          ap (value_in (key_prefix j)) (sym same)
          ∙ updated-cons l ls ns (some v) there (value_in-replace v ls ns found)
    ]
  ]

  pub value_in-snoc :
      (v : Text) (ls : List Text)
      → replace_line (key_prefix k) (setting k v) ls ≡ none
      → value_in (key_prefix j) (ls ++ setting k v ∷ [])
        ≡ updated k j (some v) (value_in (key_prefix j) ls)
  unfolding replace_line
  value_in-snoc v [] e = value_in-setting k j v [] h i
  value_in-snoc v (l ∷ ls) e = elim (Bool-cases (starts_with l (key_prefix k))) [
    | inl here ↦ absurd (ground arith)
    | inr there ↦ updated-cons l ls _ (some v) there (value_in-snoc v ls (ground arith))
  ]

  value_in-drop :
      (ls : List Text)
      → value_in (key_prefix j) (restore_lines k (key_prefix k) none ls)
        ≡ updated k j none (value_in (key_prefix j) ls)
  unfolding restore_lines
  value_in-drop [] = unfold value_in in ground arith
  value_in-drop (l ∷ ls) = elim (Bool-cases (starts_with l (key_prefix k))) [
    | inl here ↦
        rw (restore_lines, here)
          (value_in-drop ls ∙ elim (Bool-cases (text_eq k j)) [
            | inl same ↦ rw same refl
            | inr apart ↦ rw apart (sym (value_in-other k j l ls h i here apart))
          ])
    | inr there ↦ rw (restore_lines, there) (updated-cons l ls _ none there (value_in-drop ls))
  ]

  pub value_in-restore :
      (value : Option Text) (ls : List Text)
      → value_in (key_prefix j) (restore_lines k (key_prefix k) value ls)
        ≡ updated k j (if_there (value_in (key_prefix k) ls) value) (value_in (key_prefix j) ls)
  unfolding restore_lines
  value_in-restore value [] = unfold value_in in ground arith
  value_in-restore none (l ∷ ls) =
      value_in-drop (l ∷ ls)
      ∙ ap (λ o. updated k j o (value_in (key_prefix j) (l ∷ ls)))
          (sym (if_there-none (value_in (key_prefix k) (l ∷ ls))))
  value_in-restore (some v) (l ∷ ls) = elim (Bool-cases (starts_with l (key_prefix k))) [
    | inl here ↦
        let found : value_in (key_prefix k) (l ∷ ls) ≡ some (drop_prefix l (key_prefix k)) =
          unfold value_in in rw here refl in
        rw (restore_lines, here, if_there, found)
          (value_in-setting k j v _ h i ∙ elim (Bool-cases (text_eq k j)) [
            | inl same ↦ rw same refl
            | inr apart ↦
                let rest : value_in (key_prefix j) (restore_lines k (key_prefix k) none ls)
                    ≡ value_in (key_prefix j) ls =
                  value_in-drop ls ∙ rw apart refl in
                rw apart (rest ∙ sym (value_in-other k j l ls h i here apart))
          ])
    | inr there ↦
        let later : value_in (key_prefix k) (l ∷ ls) ≡ value_in (key_prefix k) ls =
          unfold value_in in rw there refl in
        rw (restore_lines, there, if_there, later)
          (updated-cons l ls _ (if_there (value_in (key_prefix k) ls) (some v)) there
            (value_in-restore (some v) ls))
  ]
