-- ===== src/FormParams/Parse.antt =====
-- `parse_qsl(…, keep_blank_values=True)` of Python's `urllib.parse`.
use raoffline_proxy.Prelude.{ℕ, List, [], ◌∷◌, ◌++◌, Text, ◌==◌, if◌then◌else◌, is_empty}
use raoffline_proxy.FormParams.Quote.{unquote_plus}

-- `s.split(mark)`: the first part and the others.
unfoldable pub split_at : ℕ → Text → Text × List Text
split_at mark [] = ([], [])
split_at mark (c ∷ s) =
    let (part, parts) = split_at mark s in
    if c == mark then ([], part ∷ parts) else (c ∷ part, parts)

-- `name, value = part.split("=", 1)`; a part without "=" has an empty value.
unfoldable pub split_pair : Text → Text × Text
split_pair [] = ([], [])
split_pair (c ∷ s) = let (k, v) = split_pair s in if c == 61 then ([], s) else (c ∷ k, v)

unfoldable pub decode_pair : Text → Text × Text
unfolding split_pair unquote_plus
decode_pair part = let (k, v) = split_pair part in (unquote_plus k, unquote_plus v)

-- Empty parts are passed over.
unfoldable pub decode_parts : List Text → List (Text × Text)
unfolding decode_pair is_empty
decode_parts [] = []
decode_parts (p ∷ ps) =
    let rest = decode_parts ps in if is_empty p then rest else decode_pair p ∷ rest

unfoldable pub parse_qsl : Text → List (Text × Text)
unfolding decode_parts split_at
parse_qsl s = let (part, parts) = split_at 38 s in decode_parts (part ∷ parts)

-- `"&".join(parts)`
unfoldable pub joined : List Text → Text
joined [] = []
joined (p ∷ []) = p
joined (p ∷ q ∷ ps) = p ++ 38 ∷ joined (q ∷ ps)
