-- ===== src/Queue/Interleaved.antt =====
-- The loop of `flush_pending_awards` in linux/raofflineproxy/flusher.py while the proxy
-- (proxy_service.py) and the menu (pending_awards.py) go on: it runs over the awards that it read at
-- its start, and each of its steps finds the queue as the others have left it.
use raoffline_proxy.Prelude.{◌≡◌, refl, Bool, true, false, Text, All, All-map, List, [], ◌∷◌}
use raoffline_proxy.Storage.{Award, Store}
use raoffline_proxy.Storage.Awards.{get_pending_awards}
use raoffline_proxy.AwardSigning.{Crypto}
use raoffline_proxy.Flusher.Run.Loop.{Environment, Progress, choose, act, start}
use raoffline_proxy.Flusher.Run.Parts.{parts, InChain}
use raoffline_proxy.Flusher.Run.Kept.{act-parts, queue-InChain}
use raoffline_proxy.Queue.Sound.{IsSound, IsSound-parts}
use raoffline_proxy.Queue.Loop.{act-known}
use raoffline_proxy.Queue.Grows.{
  Change, Change-IsSound, Change-Extends, Extends, Extends-same, Extends-trans, InChain-Extends,
}

module _ (c : Crypto) (secret : Text) (already_unlocked : Store → Text → Text → Bool)
    (env : Environment) where
  -- The rest of the loop over the awards that are left, from one state to another.
  pub data Interleaved : List Award → Progress → Progress → Type 0 where
    ended : {p : Progress} → Interleaved [] p p
    raised :
        {a : Award} {later : List Award} {p : Progress}
        → (act env (choose env a) a p).1 ≡ false
        → Interleaved (a ∷ later) p (act env (choose env a) a p).0
    on :
        {a : Award} {later : List Award} {p q : Progress}
        → (act env (choose env a) a p).1 ≡ true
        → Interleaved later (act env (choose env a) a p).0 q
        → Interleaved (a ∷ later) p q
    meanwhile :
        {awards : List Award} {p q : Progress} {t : Store}
        → Change c secret already_unlocked p.store t
        → Interleaved awards (record p { store = t }) q
        → Interleaved awards p q

  act-IsSound :
      (a : Award) (p : Progress)
      → InChain a (parts p.store)
      → IsSound c secret p.store
      → IsSound c secret (act env (choose env a) a p).0.store
  act-IsSound a p i h =
      IsSound-parts c secret p.store (act env (choose env a) a p).0.store
        (act-parts env (choose env a) a p i) (act-known env (choose env a) a p h.known) h

  act-Extends :
      (a : Award) (p : Progress)
      → InChain a (parts p.store)
      → Extends p.store (act env (choose env a) a p).0.store
  act-Extends a p i =
      Extends-same p.store (act env (choose env a) a p).0.store (act-parts env (choose env a) a p i)

  InChain-All :
      (s t : Store) (awards : List Award)
      → Extends s t
      → All (λ a. InChain a (parts s)) awards
      → All (λ a. InChain a (parts t)) awards
  InChain-All s t awards e = All-map _ _ (λ a. InChain-Extends s t a e) awards

  rest-lem :
      (awards : List Award) (p q : Progress)
      → Interleaved awards p q
      → All (λ a. InChain a (parts p.store)) awards
      → IsSound c secret p.store
      → IsSound c secret q.store × Extends p.store q.store
  rest-lem [] p q ended i h = (h, Extends-same p.store p.store refl)
  rest-lem (a ∷ later) p q (raised e) i h = (act-IsSound a p i.0 h, act-Extends a p i.0)
  rest-lem (a ∷ later) p q (on e rest) i h =
      let p' = (act env (choose env a) a p).0 in
      let one = act-Extends a p i.0 in
      let r =
        rest-lem later p' q rest (InChain-All p.store p'.store later one i.1)
          (act-IsSound a p i.0 h) in
      (r.0, Extends-trans p.store p'.store q.store one r.1)
  rest-lem awards p q (meanwhile {t = t} change rest) i h =
      let one = Change-Extends c secret already_unlocked p.store t change h in
      let r =
        rest-lem awards (record p { store = t }) q rest (InChain-All p.store t awards one i)
          (Change-IsSound c secret already_unlocked p.store t change h) in
      (r.0, Extends-trans p.store t q.store one r.1)

  -- If the loop of a flush starts on a sound queue, and between its turns awards of positive
  -- achievement ids are queued under a clock that does not run backwards, awards are deleted and
  -- the cache is written, in any order, then at the end of the loop, also by an exception, the
  -- queue is sound, and the awards of the start are there in their order with their links, before
  -- any others.
  pub Interleaved-IsSound :
      (s : Store) (q : Progress)
      → IsSound c secret s
      → Interleaved (get_pending_awards s) (start s) q
      → IsSound c secret q.store × Extends s q.store
  Interleaved-IsSound s q h run =
      rest-lem (get_pending_awards s) (start s) q run (queue-InChain s h.queue) h
