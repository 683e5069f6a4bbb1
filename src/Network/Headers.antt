-- ===== src/Network/Headers.antt =====
-- The headers that are forwarded to RetroAchievements: `build_forward_headers` of
-- linux/raofflineproxy/network.py. A dict is a list of pairs; names are ASCII.
use raoffline_proxy.Prelude.{
  ◌≡◌, refl, subst, ◌∙◌, Bool, true, false, ◌||◌, not, List, [], ◌∷◌, ◌++◌, map, Text, codes, arith,
  any, keep, keep-append, All, All-snoc, All-map, All-of_map, keep-All, if-both, append-nil,
  text_eq_sound, text_eq, if◌then◌else◌, Bool-cases, inl, inr,
}
use raoffline_proxy.CacheKeys.{lower}
use raoffline_proxy.Flusher.Send.{UserAgents, proxy_user_agent}

abbrev pub Header : Type 0
Header = Text × Text

abbrev pub skip_headers : List Text
skip_headers =
    codes "host"
    ∷ codes "content-length"
    ∷ codes "connection"
    ∷ codes "transfer-encoding"
    ∷ codes "accept-encoding"
    ∷ []

unfoldable pub is_skipped : Header → Bool
unfolding lower any text_eq
is_skipped h = any (λ name. text_eq name (lower h.0)) skip_headers

-- `lower == "user-agent"`
unfoldable pub is_user_agent : Header → Bool
unfolding lower text_eq
is_user_agent h = text_eq (lower h.0) (codes "user-agent")

unfoldable pub forward_header : UserAgents → Header → Header
unfolding is_user_agent proxy_user_agent
forward_header agents h = if is_user_agent h then (h.0, proxy_user_agent agents h.1) else h

abbrev has_name : Text → List Header → Bool
has_name name hs = any (λ h. text_eq h.0 name) hs

unfoldable pub build_forward_headers : UserAgents → List Header → List Header
unfolding is_skipped forward_header proxy_user_agent any text_eq keep
build_forward_headers agents headers =
    let forwarded = map (forward_header agents) (keep (λ h. not (is_skipped h)) headers) in
    if has_name (codes "User-Agent") forwarded || has_name (codes "user-agent") forwarded
    then forwarded
    else forwarded ++ (codes "User-Agent", proxy_user_agent agents agents.fallback) ∷ []

-- The header is of the connection, in whatever case its name is written.
abbrev pub is_connection : Header → Bool
is_connection (name, value) =
    text_eq (codes "host") (lower name)
    || (text_eq (codes "content-length") (lower name)
        || (text_eq (codes "connection") (lower name)
            || (text_eq (codes "transfer-encoding") (lower name)
                || text_eq (codes "accept-encoding") (lower name))))

or_false :
    (a b c d e : Bool) → (a || (b || (c || (d || (e || false))))) ≡ (a || (b || (c || (d || e))))
or_false a b c d e = ground arith

skipped-connection : (h : Header) → is_skipped h ≡ is_connection h
unfolding is_skipped any
skipped-connection (name, value) =
    let is_named : Text → Bool = λ own. text_eq own (lower name) in
    or_false (is_named (codes "host")) (is_named (codes "content-length"))
      (is_named (codes "connection")) (is_named (codes "transfer-encoding"))
      (is_named (codes "accept-encoding"))

forward-skipped :
    (agents : UserAgents) (h : Header) → is_skipped (forward_header agents h) ≡ is_skipped h
unfolding forward_header is_skipped
forward-skipped agents h = elim (Bool-cases (is_user_agent h)) [
  | inl agent ↦ rw agent refl
  | inr other ↦ rw other refl
]

forward-agent :
    (agents : UserAgents) (h : Header) → is_user_agent (forward_header agents h) ≡ is_user_agent h
unfolding forward_header is_user_agent
forward-agent agents h =
    if-both (λ x. is_user_agent x ≡ is_user_agent h) (is_user_agent h) _ h (λ agent. refl)
      (λ other. refl)

abbrev pub is_other : Header → Bool
is_other h = not (is_user_agent h)

others-forward :
    (agents : UserAgents) (hs : List Header)
    → keep is_other (map (forward_header agents) hs) ≡ keep is_other hs
unfolding keep
others-forward agents [] = refl
others-forward agents (h ∷ hs) = elim (Bool-cases (is_user_agent h)) [
  | inl agent ↦ rw (forward-agent agents h) (rw agent (others-forward agents hs))
  | inr other ↦ rw (forward-agent agents h) (
      rw other (
        let same : forward_header agents h ≡ h = unfold forward_header in rw other refl in
        let rest = others-forward agents hs in cc))
]

false_of : (b : Bool) → not b ≡ true → b ≡ false
false_of b h = ground arith

second_of : (a b : Bool) → (a || b) ≡ true → a ≡ false → b ≡ true
second_of a b h e = ground arith

named-agent :
    (name : Text) (hs : List Header)
    → text_eq (lower name) (codes "user-agent") ≡ true
    → has_name name hs ≡ true
    → any is_user_agent hs ≡ true
unfolding any is_user_agent
named-agent name [] e h = absurd cc
named-agent name (x ∷ hs) e h = elim (Bool-cases (text_eq x.0 name)) [
  | inl here ↦ let same : x.0 ≡ name = text_eq_sound x.0 name here in rw same (rw e refl)
  | inr later ↦ ground (arith, named-agent name hs e)
]

any-snoc_true :
    (hs : List Header) (h : Header)
    → is_user_agent h ≡ true
    → any is_user_agent (hs ++ h ∷ []) ≡ true
unfolding any
any-snoc_true [] h e = rw e refl
any-snoc_true (x ∷ hs) h e = ground (arith, any-snoc_true hs h e)

forwarded-skipped :
    (agents : UserAgents) (headers : List Header)
    → let forwarded = build_forward_headers agents headers in
      All (λ h. is_skipped h ≡ false) forwarded
      × (any is_user_agent forwarded ≡ true)
      × (keep is_other forwarded ≡ keep is_other (keep (λ h. not (is_skipped h)) headers))
unfolding build_forward_headers
forwarded-skipped agents headers =
    let kept = keep (λ (h : Header). not (is_skipped h)) headers in
    let forwarded = map (forward_header agents) kept in
    let own : Header = (codes "User-Agent", proxy_user_agent agents agents.fallback) in
    let clean : All (λ h. is_skipped h ≡ false) forwarded =
      All-of_map (forward_header agents) (λ h. is_skipped h ≡ false) kept
        (All-map (λ h. not (is_skipped h) ≡ true)
          (λ h. is_skipped (forward_header agents h) ≡ false)
          (λ h e. forward-skipped agents h ∙ false_of (is_skipped h) e) kept
          (keep-All (λ h. not (is_skipped h)) headers)) in
    if-both
      (λ (hs : List Header).
        All (λ h. is_skipped h ≡ false) hs
        × (any is_user_agent hs ≡ true)
        × (keep is_other hs ≡ keep is_other kept))
      (has_name (codes "User-Agent") forwarded || has_name (codes "user-agent") forwarded) forwarded
      (forwarded ++ own ∷ [])
      (λ named. (
        clean,
        elim (Bool-cases (has_name (codes "User-Agent") forwarded)) [
          | inl upper ↦
              named-agent (codes "User-Agent") forwarded (unfold lower text_eq in refl) upper
          | inr other ↦
              named-agent (codes "user-agent") forwarded (unfold lower text_eq in refl)
                (second_of _ _ named other)
        ],
        others-forward agents kept,
      ))
      (λ unnamed. (
        All-snoc (λ h. is_skipped h ≡ false) forwarded own clean
            (unfold is_skipped any lower text_eq in refl),
        any-snoc_true forwarded own (unfold is_user_agent lower text_eq in refl),
        keep-append is_other forwarded (own ∷ [])
            ∙ ((unfold keep is_user_agent lower text_eq in append-nil (keep is_other forwarded))
                ∙ others-forward agents kept),
      ))

-- What is forwarded names no header of the connection, in whatever case, names a user agent, and has all
-- other headers as they came and in their order.
pub build_forward_headers_lem :
    (agents : UserAgents) (headers : List Header)
    → let forwarded = build_forward_headers agents headers in
      All (λ h. is_connection h ≡ false) forwarded
      × (any is_user_agent forwarded ≡ true)
      × (keep is_other forwarded ≡ keep is_other (keep (λ h. not (is_connection h)) headers))
build_forward_headers_lem agents headers =
    let forwarded = build_forward_headers agents headers in
    let tests : is_skipped ≡ is_connection = λ i h. skipped-connection h i in
    subst
      (λ f.
        All (λ h. f h ≡ false) forwarded
        × (any is_user_agent forwarded ≡ true)
        × (keep is_other forwarded ≡ keep is_other (keep (λ h. not (f h)) headers)))
      tests (forwarded-skipped agents headers)
