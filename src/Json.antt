-- ===== src/Json.antt =====
-- JSON values as Python's `json` reads and writes them. The text format is a parameter, `Codec`:
-- reading what was written gives the same value.
pub mod Plain
pub mod Dict
use raoffline_proxy.Prelude.{
  ℕ, zero, suc, Bool, true, false, Option, none, some, List, [], ◌∷◌, Text, text_eq, if◌then◌else◌,
  ◌≡◌,
}
use raoffline_proxy.CacheKeys.Decimal.{is_digits, int_of}

-- A number is a natural number, or any other number by its literal.
mutual
  pub data Json : Type 0 where
    null : Json
    bool : Bool → Json
    num : ℕ → Json
    real : Text → Json
    str : Text → Json
    arr : Items → Json
    obj : Fields → Json

  pub data Items : Type 0 where
    nil : Items
    cons : Json → Items → Items

  pub data Fields : Type 0 where
    end : Fields
    field : Text → Json → Fields → Fields

-- `d.get(k)` of a dict; Python keeps the last of two equal keys.
unfoldable pub field_of : Text → Fields → Option Json
field_of k end = none
field_of k (field j v fs) =
    let rest = field_of k fs in
    elim rest [ none ↦ if text_eq j k then some v else none | some w ↦ some w ]

-- `payload.get(k, d)`: none if the payload is no dict, which raises.
unfoldable pub get_field : Text → Json → Json → Option Json
unfolding field_of
get_field k d (obj fs) = elim (field_of k fs) [ none ↦ some d | some v ↦ some v ]
get_field k d _ = none

-- `int(v)`, where it does not raise; a number given by its literal is not read.
unfoldable pub to_int : Json → Option ℕ
to_int (num n) = some n
to_int (bool true) = some 1
to_int (bool false) = some 0
to_int (str s) = if is_digits s then some (int_of s) else none
to_int _ = none

-- `bool(v)`
unfoldable pub is_true : Json → Bool
is_true null = false
is_true (bool b) = b
is_true (num n) = elim n [ zero ↦ false | suc m ↦ true ]
is_true (real s) = true
is_true (str s) = elim s [ [] ↦ false | c ∷ t ↦ true ]
is_true (arr xs) = elim xs [ nil ↦ false | cons x ys ↦ true ]
is_true (obj fs) = elim fs [ end ↦ false | field k v gs ↦ true ]

-- `json.dumps` and `json.loads`; a text that is no JSON makes `loads` raise.
pub record Codec : Type 0 where
  pub dumps : Json → Text
  pub loads : Text → Option Json
  pub loads-dumps : (j : Json) → loads (dumps j) ≡ some j

-- `d[k] = v` of a dict: in place, or at the end.
unfoldable pub set_field : Text → Json → Fields → Fields
set_field k v end = field k v end
set_field k v (field j w fs) =
    let rest = set_field k v fs in if text_eq j k then field k v fs else field j w rest

-- `isinstance(v, int)`, with the number; a bool is an int.
unfoldable pub as_int : Json → Option ℕ
as_int (num n) = some n
as_int (bool true) = some 1
as_int (bool false) = some 0
as_int _ = none

unfoldable pub is_dict : Json → Bool
is_dict (obj fs) = true
is_dict _ = false

-- `[v for v in items if p(v)]`, and the same of a dict's values.
unfoldable pub keep_items : (Json → Bool) → Items → Items
keep_items p nil = nil
keep_items p (cons v vs) = let rest = keep_items p vs in if p v then cons v rest else rest

unfoldable pub keep_fields : (Json → Bool) → Fields → Fields
keep_fields p end = end
keep_fields p (field k v fs) = let rest = keep_fields p fs in if p v then field k v rest else rest
