-- ===== src/Json/Dict.antt =====
-- A dict after a key of it is set.
use raoffline_proxy.Prelude.{
  ◌≡◌, refl, ◌∙◌, subst, ap, none, some, Text, arith, text_eq, text_eq_sound, text_eq_comm,
  text_eq_iff, if◌then◌else◌, Bool-cases, inl, inr,
}
use raoffline_proxy.Json.{Json, Fields, end, field, field_of, set_field}

-- No key stands twice.
abbrev pub IsDict : Fields → Type 0
IsDict end = Unit
IsDict (field k v fs) = (field_of k fs ≡ none) × IsDict fs

pub field_of-set_field :
    (j k : Text) (v : Json) (fs : Fields)
    → IsDict fs
    → field_of k (set_field j v fs) ≡ (if text_eq j k then some v else field_of k fs)
unfolding field_of set_field
field_of-set_field j k v end d = refl
field_of-set_field j k v (field i w fs) (new, d) =
    let rest = field_of-set_field j k v fs d in
    elim (Bool-cases (text_eq i k)) [
      | inl here ↦
          let e : i ≡ k = text_eq_sound i k here in
          let gone : field_of k fs ≡ none = subst (λ t. field_of t fs ≡ none) e new in
          let same : text_eq i j ≡ text_eq j k = ap (λ t. text_eq t j) e ∙ text_eq_comm k j in
          ground (arith, same, gone, rest)
      | inr apart ↦ ground (arith, rest, text_eq_iff i j, text_eq_iff j k, text_eq_iff i k)
    ]

-- It stays a dict.
pub IsDict-set_field : (j : Text) (v : Json) (fs : Fields) → IsDict fs → IsDict (set_field j v fs)
unfolding set_field
IsDict-set_field j v end d = (unfold field_of in refl, tt)
IsDict-set_field j v (field i w fs) (new, d) = elim (Bool-cases (text_eq i j)) [
  | inl here ↦
      let e : i ≡ j = text_eq_sound i j here in rw here (subst (λ t. field_of t fs ≡ none) e new, d)
  | inr apart ↦
      rw apart (
        field_of-set_field j i v fs d ∙ rw (text_eq_comm j i, apart) new,
        IsDict-set_field j v fs d,
      )
]
