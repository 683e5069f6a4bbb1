-- ===== src/FormParams/Given.antt =====
-- Bodies by what their names read as: linux/raofflineproxy/utils.py.
use raoffline_proxy.Prelude.{
  ◌≡◌, ap, ◌∙◌, false, ◌||◌, Option, some, [], ◌∷◌, Text, All, arith, any, text_eq, ◌==◌,
  if◌then◌else◌,
}
use raoffline_proxy.FormParams.{extract_form_param, replace_or_append_form_param}
use raoffline_proxy.FormParams.Quote.{IsPlain, unquote_plus}
use raoffline_proxy.FormParams.Parse.{parse_qsl}
use raoffline_proxy.FormParams.Replace.{
  IsKey, IsBytes, IsSimple, extract-replace, replace-joined, new_params-IsSimple, parse_qsl-joined,
}

abbrev pub Reading : Type 0
Reading = Text → Option Text

-- A body whose names need no escapes and read as given.
pub record IsRead (body : Text) (r : Reading) : Type 0 where
  pub simple : IsSimple (parse_qsl body)
  pub reads : (k : Text) → extract_form_param body k ≡ r k

abbrev pub overridden : Text → Text → Reading → Reading
overridden name value r k = if text_eq name k then some value else r k

IsSimple-replace :
    (body name value : Text)
    → IsSimple (parse_qsl body)
    → IsKey name
    → IsBytes value
    → IsSimple (parse_qsl (replace_or_append_form_param body name value))
IsSimple-replace body name value h n v =
    let params = new_params-IsSimple name value (parse_qsl body) n v h in
    rw (replace-joined body name value) (rw (parse_qsl-joined _ params) params)

pub replace-IsRead :
    (body name value : Text) (r : Reading)
    → IsKey name
    → IsBytes value
    → IsRead body r
    → IsRead (replace_or_append_form_param body name value) (overridden name value r)
replace-IsRead body name value r n v h = record {
  simple = IsSimple-replace body name value h.simple n v;
  reads = λ k.
      extract-replace body name value k h.simple n v
      ∙ ap (λ x. if text_eq name k then some value else x) (h.reads k);
}

name-All-IsPlain : (s : Text) → any (λ c. (c == 38) || (c == 61)) s ≡ false → All IsPlain s
unfolding any
name-All-IsPlain [] h = tt
name-All-IsPlain (c ∷ s) h = ((ground arith, ground arith), name-All-IsPlain s (ground arith))

-- A name without separators, escapes and pluses is a key.
pub name-IsKey :
    (s : Text) → any (λ c. (c == 38) || (c == 61)) s ≡ false → unquote_plus s ≡ s → IsKey s
name-IsKey s h e = record { plain = name-All-IsPlain s h; literal = e }
