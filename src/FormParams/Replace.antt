-- ===== src/FormParams/Replace.antt =====
-- What `replace_or_append_form_param` of linux/raofflineproxy/utils.py does to the parameters that a
-- reader of the body sees.
use raoffline_proxy.Prelude.{
  ◌<◌, ◌≡◌, ◌≢◌, refl, ap, ◌∙◌, Bool, true, false, ◌&&◌, ◌||◌, not, none, some, List, [], ◌∷◌, ◌++◌,
  map, Text, text_eq, text_eq_iff, is_empty, if◌then◌else◌, arith, All, Bool-cases, inl, inr,
}
use raoffline_proxy.FormParams.{
  Params, last_value, extract_form_param, replace_parts, replace_or_append_form_param,
}
use raoffline_proxy.FormParams.Quote.{
  quote_plus, unquote_plus, unquote-quote, quote-IsPlain, IsPlain,
}
use raoffline_proxy.FormParams.Parse.{
  split_at, split_pair, decode_pair, decode_parts, parse_qsl, joined,
}

-- A key that is written as it is reads back as itself: no separator, no escape, no plus.
pub record IsKey (k : Text) : Type 0 where
  pub plain : All IsPlain k
  pub literal : unquote_plus k ≡ k

abbrev pub IsBytes : Text → Type 0
IsBytes = All (λ c. c < 256)

-- Parameters whose names need no escapes.
abbrev pub IsSimple : Params → Type 0
IsSimple = All (λ p. IsKey p.0 × All (λ c. c < 256) p.1)

abbrev written : Text × Text → Text
written p = p.0 ++ 61 ∷ quote_plus p.1

split_pair-written : (k v : Text) → All IsPlain k → split_pair (k ++ 61 ∷ v) ≡ (k, v)
unfolding split_pair
split_pair-written [] v h = refl
split_pair-written (c ∷ k) v h = ground (arith, split_pair-written k v h.1)

decode-written : (p : Text × Text) → IsKey p.0 → IsBytes p.1 → decode_pair (written p) ≡ p
unfolding decode_pair
decode-written (k, v) h b =
    rw (split_pair-written k (quote_plus v) h.plain, h.literal, unquote-quote v b)

abbrev NoAmp : Text → Type 0
NoAmp = All (λ c. c ≢ 38)

NoAmp-append : (s t : Text) → NoAmp s → NoAmp t → NoAmp (s ++ t)
NoAmp-append [] t h k = k
NoAmp-append (c ∷ s) t h k = (h.0, NoAmp-append s t h.1 k)

NoAmp-plain : (s : Text) → All IsPlain s → NoAmp s
NoAmp-plain [] h = tt
NoAmp-plain (c ∷ s) h = (h.0.0, NoAmp-plain s h.1)

split_at-last : (s : Text) → NoAmp s → split_at 38 s ≡ (s, [])
unfolding split_at
split_at-last [] h = refl
split_at-last (c ∷ s) h = ground (arith, split_at-last s h.1)

split_at-next :
    (s t : Text) → NoAmp s → split_at 38 (s ++ 38 ∷ t) ≡ (s, (split_at 38 t).0 ∷ (split_at 38 t).1)
unfolding split_at
split_at-next [] t h = refl
split_at-next (c ∷ s) t h = ground (arith, split_at-next s t h.1)

split_at-joined :
    (p : Text) (ps : List Text) → All NoAmp (p ∷ ps) → split_at 38 (joined (p ∷ ps)) ≡ (p, ps)
unfolding joined
split_at-joined p [] h = split_at-last p h.0
split_at-joined p (q ∷ ps) h =
    split_at-next p (joined (q ∷ ps)) h.0 ∙ ap (λ r. (p, r.0 ∷ r.1)) (split_at-joined q ps h.1)

written-NoAmp : (p : Text × Text) → IsKey p.0 → IsBytes p.1 → NoAmp (written p)
written-NoAmp (k, v) h b =
    NoAmp-append k (61 ∷ quote_plus v) (NoAmp-plain k h.plain)
      (omega arith, NoAmp-plain (quote_plus v) (quote-IsPlain v b))

not-empty : (k v : Text) → is_empty (k ++ 61 ∷ v) ≡ false
unfolding is_empty
not-empty [] v = refl
not-empty (c ∷ k) v = refl

decode_parts-written : (ps : Params) → IsSimple ps → decode_parts (map written ps) ≡ ps
unfolding decode_parts
decode_parts-written [] h = refl
decode_parts-written ((k, v) ∷ ps) h =
    rw (not-empty k (quote_plus v), decode-written (k, v) h.0.0 h.0.1, decode_parts-written ps h.1)

written-All-NoAmp : (ps : Params) → IsSimple ps → All NoAmp (map written ps)
written-All-NoAmp [] h = tt
written-All-NoAmp (p ∷ ps) h = (written-NoAmp p h.0.0 h.0.1, written-All-NoAmp ps h.1)

-- Parameters come back from a body that is written from them.
pub parse_qsl-joined : (ps : Params) → IsSimple ps → parse_qsl (joined (map written ps)) ≡ ps
unfolding parse_qsl
parse_qsl-joined [] h = unfold joined split_at decode_parts is_empty in refl
parse_qsl-joined (p ∷ ps) h =
    rw (split_at-joined (written p) (map written ps) (written-All-NoAmp (p ∷ ps) h))
      (decode_parts-written (p ∷ ps) h)

-- The loop's parts, as parameters: the first value of the name is replaced, the others dropped.
unfoldable pub replaced_params : Text → Text → Bool → Params → Params × Bool
replaced_params name value done [] = ([], done)
replaced_params name value done ((k, v) ∷ ps) =
    let hit = text_eq k name in
    let (rest, all) = replaced_params name value (done || hit) ps in
    if hit && not done
    then ((k, value) ∷ rest, all)
    else if hit
    then (rest, all)
    else ((k, v) ∷ rest, all)

replace_parts-written :
    (name value : Text) (done : Bool) (ps : Params)
    → replace_parts name value done ps
      ≡ (map written (replaced_params name value done ps).0, (replaced_params name value done ps).1)
unfolding replace_parts replaced_params
replace_parts-written name value done [] = refl
replace_parts-written name value done ((k, v) ∷ ps) =
    ground (arith, replace_parts-written name value (done || text_eq k name) ps)

replaced_params-IsSimple :
    (name value : Text) (done : Bool) (ps : Params)
    → IsKey name
    → IsBytes value
    → IsSimple ps
    → IsSimple (replaced_params name value done ps).0
unfolding replaced_params
replaced_params-IsSimple name value done [] n v h = tt
replaced_params-IsSimple name value done ((k, w) ∷ ps) n v h =
    let ih = replaced_params-IsSimple name value (done || text_eq k name) ps n v h.1 in
    elim (Bool-cases (text_eq k name)) [
      | inl hit ↦ elim (Bool-cases done) [
        | inl yet ↦ rw (hit, yet) (rw (hit, yet) at ih)
        | inr first ↦ rw (hit, first) ((h.0.0, v), (rw (hit, first) at ih))
      ]
      | inr miss ↦ rw miss (h.0, (rw miss at ih))
    ]

-- Other names keep their last value.
last_value-replaced_ne :
    (name value k : Text) (done : Bool) (ps : Params)
    → text_eq name k ≡ false
    → last_value k (replaced_params name value done ps).0 ≡ last_value k ps
unfolding last_value replaced_params
last_value-replaced_ne name value k done [] n = refl
last_value-replaced_ne name value k done ((j, w) ∷ ps) n = ground (
  arith,
  last_value-replaced_ne name value k (done || text_eq j name) ps n,
  text_eq_iff j name,
  text_eq_iff j k,
  text_eq_iff name k,
)

replaced_done : (name value : Text) (ps : Params) → (replaced_params name value true ps).1 ≡ true
unfolding replaced_params
replaced_done name value [] = refl
replaced_done name value ((j, w) ∷ ps) = ground (arith, replaced_done name value ps)

-- The name has the new value if the loop met it, and else no value.
last_value-replaced_self :
    (name value : Text) (done : Bool) (ps : Params)
    → last_value name (replaced_params name value done ps).0
      ≡ (if done then none else if (replaced_params name value done ps).1 then some value else none)
unfolding last_value replaced_params
last_value-replaced_self name value done [] = ground arith
last_value-replaced_self name value done ((j, w) ∷ ps) = ground (
  arith,
  last_value-replaced_self name value (done || text_eq j name) ps,
  replaced_done name value ps,
  text_eq_iff j name,
)

last_value-snoc :
    (k name value : Text) (ps : Params)
    → last_value k (ps ++ (name, value) ∷ [])
      ≡ (if text_eq name k then some value else last_value k ps)
unfolding last_value
last_value-snoc k name value [] = ground arith
last_value-snoc k name value ((j, w) ∷ ps) = ground (arith, last_value-snoc k name value ps)

-- What the new body holds.
unfoldable pub new_params : Text → Text → Params → Params
new_params name value ps =
    let (rest, replaced) = replaced_params name value false ps in
    if replaced then rest else rest ++ (name, value) ∷ []

map-written-append : (ps qs : Params) → map written (ps ++ qs) ≡ map written ps ++ map written qs
map-written-append [] qs = refl
map-written-append (p ∷ ps) qs = ap (◌∷◌ (written p)) (map-written-append ps qs)

pub replace-joined :
    (body name value : Text)
    → replace_or_append_form_param body name value
      ≡ joined (map written (new_params name value (parse_qsl body)))
unfolding replace_or_append_form_param new_params
replace-joined body name value = elim (Bool-cases (replaced_params name value false ps).1) [
  | inl met ↦ rw (replace_parts-written name value false ps, met)
  | inr new ↦ rw (replace_parts-written name value false ps, new) (rw map-written-append)
]
  where
    ps : Params
    ps = parse_qsl body

IsSimple-append : (ps qs : Params) → IsSimple ps → IsSimple qs → IsSimple (ps ++ qs)
IsSimple-append [] qs h k = k
IsSimple-append (p ∷ ps) qs h k = (h.0, IsSimple-append ps qs h.1 k)

pub new_params-IsSimple :
    (name value : Text) (ps : Params)
    → IsKey name
    → IsBytes value
    → IsSimple ps
    → IsSimple (new_params name value ps)
unfolding new_params
new_params-IsSimple name value ps n v h =
    let simple = replaced_params-IsSimple name value false ps n v h in
    elim (Bool-cases (replaced_params name value false ps).1) [
      | inl met ↦ rw met simple
      | inr new ↦ rw new (IsSimple-append _ _ simple ((n, v), tt))
    ]

last_value-new_params :
    (name value k : Text) (ps : Params)
    → last_value k (new_params name value ps)
      ≡ (if text_eq name k then some value else last_value k ps)
unfolding new_params
last_value-new_params name value k ps = ground (
  arith,
  last_value-replaced_ne name value k false ps,
  last_value-replaced_self name value false ps,
  last_value-snoc k name value (replaced_params name value false ps).0,
  text_eq_iff name k,
)

-- In a body whose names need no escapes, the name then reads as the value and every other name as
-- before.
pub extract-replace :
    (body name value k : Text)
    → IsSimple (parse_qsl body)
    → IsKey name
    → All (λ c. c < 256) value
    → extract_form_param (replace_or_append_form_param body name value) k
      ≡ (if text_eq name k then some value else extract_form_param body k)
unfolding extract_form_param
extract-replace body name value k h n v = rw (replace-joined body name value) (
    rw (parse_qsl-joined _ (new_params-IsSimple name value (parse_qsl body) n v h))
      (last_value-new_params name value k (parse_qsl body)))
