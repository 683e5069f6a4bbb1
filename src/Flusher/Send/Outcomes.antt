-- ===== src/Flusher/Send/Outcomes.antt =====
-- When `send_award` of linux/raofflineproxy/flusher.py reports what.
use raoffline_proxy.Prelude.{
  ℕ, ◌≤◌, ◌<◌, ◌≡◌, ◌≢◌, ◌⊎◌, inl, inr, refl, true, Option, none, some, Text, codes, arith, ◌==◌,
  ◌||◌, Option-cases, Bool-cases, is_empty, subst, Bool, false, any, starts_with,
}
use raoffline_proxy.CacheKeys.{lower}
use raoffline_proxy.Json.{
  Json, Fields, null, bool, num, real, str, arr, obj, Codec, field_of, is_true,
}
use raoffline_proxy.Server.{HttpPost, answer, unreachable}
use raoffline_proxy.Flusher.Send.{
  contains, is_auth_message, error_message, success, auth_error, failure_of, read_answer, classify,
}

failure-ne-success : (payload : Fields) → failure_of payload ≢ success
unfolding failure_of
failure-ne-success payload e = ground arith

-- The body says that the award was taken.
abbrev pub SaysSuccess : Option Json → Type 0
SaysSuccess none = ⊥
SaysSuccess (some (obj payload)) =
    (flag : Json) × (field_of (codes "Success") payload ≡ some flag) × (is_true flag ≡ true)
SaysSuccess (some _) = ⊥

read_answer-success : (j : Option Json) → read_answer j ≡ success → SaysSuccess j
unfolding read_answer
read_answer-success none e = cc
read_answer-success (some (obj payload)) e =
    elim (Option-cases (field_of (codes "Success") payload)) [
      | inl missing ↦ absurd (ground (arith, failure-ne-success payload))
      | inr (flag, found) ↦ (flag, found, ground (arith, failure-ne-success payload))
    ]
read_answer-success (some null) e = cc
read_answer-success (some (bool b)) e = cc
read_answer-success (some (num n)) e = cc
read_answer-success (some (real s)) e = cc
read_answer-success (some (str s)) e = cc
read_answer-success (some (arr xs)) e = cc

-- The body says that the login was not taken: Success is not there or not true, and the error has one of
-- the words for a login in it, in whatever case.
abbrev pub NamesLogin : Text → Type 0
NamesLogin m =
    (contains (codes "invalid") (lower m)
      || (contains (codes "token") (lower m)
          || (contains (codes "credentials") (lower m) || contains (codes "user") (lower m))))
    ≡ true

abbrev pub RejectsLogin : Option Json → Text → Type 0
RejectsLogin none m = ⊥
RejectsLogin (some (obj payload)) m =
    (¬ SaysSuccess (some (obj payload)))
    × (field_of (codes "Error") payload ≡ some (str m))
    × NamesLogin m
RejectsLogin (some _) m = ⊥

or_false :
    (a b c d : Bool) → (a || (b || (c || (d || false)))) ≡ true → (a || (b || (c || d))) ≡ true
or_false a b c d h = ground arith

names_login : (m : Text) → is_auth_message m ≡ true → NamesLogin m
unfolding is_auth_message any
names_login m h =
    let has : Text → Bool = λ word. contains word (lower m) in
    or_false (has (codes "invalid")) (has (codes "token")) (has (codes "credentials"))
      (has (codes "user")) h

abbrev no_error : Text
no_error = codes "Server returned Success:false"

no_error-calm : is_auth_message no_error ≡ false
unfolding is_auth_message contains any lower starts_with is_empty
no_error-calm = refl

calm : (m : Text) → no_error ≡ m → is_auth_message m ≡ true → ⊥
calm m e h = ground (arith, subst (λ t. is_auth_message t ≡ false) e no_error-calm)

error_message-text :
    (payload : Fields) (m : Text)
    → error_message payload ≡ some m
    → is_auth_message m ≡ true
    → field_of (codes "Error") payload ≡ some (str m)
unfolding error_message
error_message-text payload m e h = elim (Option-cases (field_of (codes "Error") payload)) [
  | inl missing ↦ absurd (calm m (ground arith) h)
  | inr (str s, there) ↦ elim (Bool-cases (is_empty s)) [
    | inl empty ↦ absurd (calm m (ground arith) h)
    | inr full ↦ ground arith
  ]
  | inr (null, there) ↦ absurd (calm m (ground arith) h)
  | inr (bool true, there) ↦ absurd (ground arith)
  | inr (bool false, there) ↦ absurd (calm m (ground arith) h)
  | inr (v, there) ↦ elim (Bool-cases (is_true v)) [
    | inl on ↦ absurd (ground arith)
    | inr off ↦ absurd (calm m (ground arith) h)
  ]
]

failure_of-auth_error :
    (payload : Fields) (m : Text)
    → failure_of payload ≡ auth_error m
    → (field_of (codes "Error") payload ≡ some (str m)) × NamesLogin m
unfolding failure_of
failure_of-auth_error payload m e = elim (Option-cases (error_message payload)) [
  | inl broken ↦ absurd (ground arith)
  | inr (message, there) ↦ elim (Bool-cases (is_auth_message message)) [
    | inl login ↦
        let same : message ≡ m = ground arith in
        let named : is_auth_message m ≡ true = ground arith in
        (error_message-text payload m (ground arith) named, names_login m named)
    | inr other ↦ absurd (ground arith)
  ]
]

read_answer-auth_error :
    (j : Option Json) (m : Text) → read_answer j ≡ auth_error m → RejectsLogin j m
unfolding read_answer
read_answer-auth_error none m e = absurd cc
read_answer-auth_error (some (obj payload)) m e =
    let failed : failure_of payload ≡ auth_error m =
      elim (Option-cases (field_of (codes "Success") payload)) [
        | inl missing ↦ ground arith
        | inr (flag, there) ↦ elim (Bool-cases (is_true flag)) [
          | inl on ↦ absurd (ground arith)
          | inr off ↦ ground arith
        ]
      ] in
    let login = failure_of-auth_error payload m failed in
    (λ said. absurd (ground (arith, said.1, said.2)), login.0, login.1)
read_answer-auth_error (some null) m e = absurd cc
read_answer-auth_error (some (bool b)) m e = absurd cc
read_answer-auth_error (some (num n)) m e = absurd cc
read_answer-auth_error (some (real s)) m e = absurd cc
read_answer-auth_error (some (str s)) m e = absurd cc
read_answer-auth_error (some (arr xs)) m e = absurd cc

module _ (json : Codec) where
  -- An award counts as sent only if the server answered with a 2xx status and a JSON object whose
  -- Success is true.
  pub classify-success :
      (h : HttpPost)
      → classify json h ≡ success
      → (status : ℕ) × (body : Text) × (h ≡ answer status body)
        × (200 ≤ status)
        × (status < 300)
        × SaysSuccess (json.loads body)
  unfolding classify
  classify-success unreachable e = absurd (cc)
  classify-success (answer status body) e = (
    status,
    body,
    refl,
    ground arith,
    ground arith,
    read_answer-success (json.loads body) (unfold classify in ground arith),
  )

  -- The login counts as rejected only where the server rejects the token by the status 401 or 403, or
  -- takes the request with a 2xx status, does not say Success and names the login in its error.
  pub classify-auth_error :
      (h : HttpPost) (m : Text)
      → classify json h ≡ auth_error m
      → (status : ℕ) × (body : Text) × (h ≡ answer status body)
        × (((status ≡ 401) ⊎ (status ≡ 403))
            ⊎ ((200 ≤ status) × (status < 300) × RejectsLogin (json.loads body) m))
  unfolding classify
  classify-auth_error unreachable m e = absurd cc
  classify-auth_error (answer status body) m e = (
    status,
    body,
    refl,
    elim (Bool-cases (status == 401)) [
      | inl rejected ↦ inl (inl (ground arith))
      | inr other ↦ elim (Bool-cases (status == 403)) [
        | inl forbidden ↦ inl (inr (ground arith))
        | inr taken ↦ inr (
          ground arith,
          ground arith,
          read_answer-auth_error (json.loads body) m (unfold classify in ground arith),
        )
      ]
    ],
  )
