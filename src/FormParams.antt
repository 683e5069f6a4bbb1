-- ===== src/FormParams.antt =====
-- Form bodies and query strings: linux/raofflineproxy/utils.py over `parse_qsl`, `quote_plus` and
-- `unquote_plus` of Python. A text is the bytes of its UTF-8 form.
pub mod Quote
pub mod Parse
pub mod Replace
pub mod Given
use raoffline_proxy.Prelude.{
  ℕ, ◌+◌, ◌<◌, Bool, true, false, ◌&&◌, ◌||◌, not, Option, none, some, List, [], ◌∷◌, ◌++◌, map,
  Text, codes, String, text_eq, is_empty, ltb, leb, ◌==◌, if◌then◌else◌, get_or, find, any,
}
use Quote.{quote_plus}
use Parse.{parse_qsl, joined}

abbrev pub Params : Type 0
Params = List (Text × Text)

-- `dict(params).get(name)`: the last value of a name wins.
unfoldable pub last_value : Text → Params → Option Text
last_value name [] = none
last_value name ((k, v) ∷ ps) =
    let rest = last_value name ps in
    elim rest [ none ↦ if text_eq k name then some v else none | some w ↦ some w ]

unfoldable pub extract_form_param : Text → Text → Option Text
unfolding last_value parse_qsl
extract_form_param body name = last_value name (parse_qsl body)

-- `s.split(mark, 1)[1]` if the mark is there.
unfoldable pub after_mark : ℕ → Text → Option Text
after_mark mark [] = none
after_mark mark (c ∷ s) = let rest = after_mark mark s in if c == mark then some s else rest

unfoldable pub before_mark : ℕ → Text → Text
before_mark mark [] = []
before_mark mark (c ∷ s) = let rest = before_mark mark s in if c == mark then [] else c ∷ rest

-- `urlsplit(path).query` of a path without a scheme and a host: from `?` up to `#`.
unfoldable pub query_of : Text → Text
unfolding after_mark before_mark
query_of path = get_or (after_mark 63 (before_mark 35 path)) []

unfoldable pub extract_query_param : Text → Text → Option Text
unfolding query_of last_value parse_qsl
extract_query_param path name = last_value name (parse_qsl (query_of path))

-- `a or b`: None and the empty text are false.
unfoldable pub or_text : Option Text → Option Text → Option Text
unfolding is_empty
or_text none b = b
or_text (some s) b = if is_empty s then b else some s

unfoldable pub extract_request_param : Text → Text → Text → Option Text
unfolding or_text extract_query_param extract_form_param
extract_request_param path body name =
    or_text (extract_query_param path name) (extract_form_param body name)

unfoldable pub extract_action : Text → Text → Option Text
unfolding extract_request_param
extract_action path body = extract_request_param path body (codes "r")

abbrev pub is_text : Option Text → Text → Bool
is_text none t = false
is_text (some s) t = text_eq s t

unfoldable pub is_hardcore_request : Text → Text → Bool
unfolding extract_request_param
is_hardcore_request path body = is_text (extract_request_param path body (codes "h")) (codes "1")

-- The loop of `replace_or_append_form_param`: the parts, and whether the name was replaced. The key
-- of a part is written as it was decoded.
unfoldable pub replace_parts : Text → Text → Bool → Params → List Text × Bool
unfolding quote_plus
replace_parts name value replaced [] = ([], replaced)
replace_parts name value replaced ((k, v) ∷ ps) =
    let hit = text_eq k name in
    let (parts, done) = replace_parts name value (replaced || hit) ps in
    if hit && not replaced
    then ((k ++ 61 ∷ quote_plus value) ∷ parts, done)
    else if hit
    then (parts, done)
    else ((k ++ 61 ∷ quote_plus v) ∷ parts, done)

unfoldable pub replace_or_append_form_param : Text → Text → Text → Text
unfolding replace_parts parse_qsl joined
replace_or_append_form_param body name value =
    let (parts, replaced) = replace_parts name value false (parse_qsl body) in
    joined (if replaced then parts else parts ++ (name ++ 61 ∷ quote_plus value) ∷ [])
