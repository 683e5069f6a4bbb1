-- ===== src/RomBrowser/Drain/Ends.antt =====
-- A drain of linux/raofflineproxy/rom_browser.py ends.
use raoffline_proxy.Prelude.{
  ℕ, ◌+◌, ◌≡◌, refl, true, Option, none, some, List, [], ◌∷◌, Text, arith, leb, any, Bool-cases,
  Option-cases, inl, inr,
}
use raoffline_proxy.Json.{Json, Codec}
use raoffline_proxy.Storage.{Store}
use raoffline_proxy.Auth.{Credentials}
use raoffline_proxy.RomBrowser.Drain.{go_on, turn, turns, rate_limited_at, start, drain_locked}
use raoffline_proxy.RomBrowser.Drain.State.{Drain, DrainResult, Turn, Turned, batch_max}

module _ (json : Codec) (show : Json → Text) (creds : Credentials) where
  abbrev EndsTurn : Turned → Type 0
  EndsTurn ended = (r : DrainResult) × (ended.1 ≡ some r)

  late-EndsTurn :
      (stop_at : ℕ) (t : Turn) (d : Drain)
      → leb stop_at t.now ≡ true
      → EndsTurn (turn json show creds stop_at t d)
  unfolding turn rate_limited_at
  late-EndsTurn stop_at t d late = elim (Bool-cases t.should_pause) [
    | inl stops ↦ rw (stops, turn) (_, refl)
    | inr runs ↦ elim (Option-cases t.limited) [
      | inl free ↦ rw (runs, free, late, turn) (_, refl)
      | inr (until, limited) ↦ rw (runs, limited, turn) (_, refl)
    ]
  ]

  go_on-ends :
      (rest : Drain → Option (Drain × DrainResult)) (ended : Turned)
      → ((d : Drain) → (answer : Drain × DrainResult) × (rest d ≡ some answer))
      → (answer : Drain × DrainResult) × (go_on json show creds rest ended ≡ some answer)
  unfolding go_on
  go_on-ends rest (d, none) h = h d
  go_on-ends rest (d, some r) h = ((d, r), refl)

  go_on-ended :
      (rest : Drain → Option (Drain × DrainResult)) (ended : Turned)
      → EndsTurn ended
      → (answer : Drain × DrainResult) × (go_on json show creds rest ended ≡ some answer)
  unfolding go_on
  go_on-ended rest (d, none) (r, h) = absurd cc
  go_on-ended rest (d, some r') (r, h) = ((d, r'), refl)

  turns-ends :
      (stop_at : ℕ) (outside : List Turn) (d : Drain)
      → any (λ t. leb stop_at t.now) outside ≡ true
      → (answer : Drain × DrainResult) × (turns json show creds stop_at outside d ≡ some answer)
  unfolding turns any
  turns-ends stop_at [] d h = absurd cc
  turns-ends stop_at (t ∷ later) d h = elim (Bool-cases (leb stop_at t.now)) [
    | inl late ↦
        go_on-ended (turns json show creds stop_at later) (turn json show creds stop_at t d)
          (late-EndsTurn stop_at t d late)
    | inr early ↦
        let waits : any (λ (u : Turn). leb stop_at u.now) later ≡ true = ground arith in
        go_on-ends (turns json show creds stop_at later) (turn json show creds stop_at t d)
          λ d'. turns-ends stop_at later d' waits
  ]

  -- Whatever the queue holds, the server answers and other callers do, a drain returns at the latest in the
  -- first turn whose clock is `batch_max` past its start.
  pub drain_locked-ends :
      (started_at : ℕ) (outside : List Turn) (keys : Option (List Text)) (s : Store)
      → any (λ t. leb (started_at + batch_max) t.now) outside ≡ true
      → (answer : Drain × DrainResult) × (drain_locked json show creds started_at outside keys s
          ≡ some answer)
  unfolding drain_locked
  drain_locked-ends started_at outside keys s h =
      turns-ends (started_at + batch_max) outside (start json show creds keys s) h
