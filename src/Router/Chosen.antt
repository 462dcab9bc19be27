-- ===== src/Router/Chosen.antt =====
-- What holds of the backend that active-active and canary mode choose.
use text.Mathlib.Text.{◌==◌ as str_eq}
use text.Mathlib.TextPositions.{eq_refl}
use thttpd_rs.Base.{
  ℕ, zero, suc, ◌+◌, ◌≡◌, ◌≤◌, ◌<◌, refl, ap, true, Option, none, some, List, [], ◌∷◌, All, String,
  ◌⊎◌, inl, inr, arith, Bool-cases, Option-cases, ◌==◌, is_empty, length, &&-eq-true,
}
use thttpd_rs.Circuit.Probe.{can_route-try_admit}
use thttpd_rs.Backend
use thttpd_rs.Backend.{Backend, BackendPool, weight, is_routable, breaker_can_route, breaker_admit}
use thttpd_rs.Router.{
  total_weight, selected, RoutingConfig, RoutingDecision, Surroundings, RoutingMode, is_candidate,
  keep_candidates, retain, admit, select, weighted, finish, decide,
}
use thttpd_rs.Router.Draw.{Among, selected-Among, All-Among}

-- The non-mutating check of a pool foretells the admission at the same time.
pub breaker_can_route-admit :
    (now : ℕ) (pool : BackendPool) (name : String)
    → breaker_can_route now pool name ≡ (breaker_admit now pool name).1
unfolding breaker_can_route breaker_admit
breaker_can_route-admit now pool name = elim (Option-cases (Backend.breaker pool name)) [
  | inl e ↦ rw (e, breaker_can_route, breaker_admit) refl
  | inr (b, e) ↦ rw (e, breaker_can_route, breaker_admit) (can_route-try_admit now b)
]

retain-All :
    (P : Backend → Type 0) (name : String) (bs : List Backend) → All P bs → All P (retain name bs)
unfolding retain
retain-All P name [] h = tt
retain-All P name (b ∷ bs) (p, h) = elim (Bool-cases (str_eq b.name name)) [
  | inl e ↦ rw e (retain-All P name bs h)
  | inr e ↦ rw e (p, retain-All P name bs h)
]

length-retain-le : (name : String) (bs : List Backend) → length (retain name bs) ≤ length bs
unfolding retain
length-retain-le name [] = omega arith
length-retain-le name (b ∷ bs) = ground (arith, length-retain-le name bs)

pub length-retain-lt :
    (b : Backend) (bs : List Backend) → Among b bs → length (retain b.name bs) < length bs
unfolding retain
length-retain-lt b [] m = absurd m
length-retain-lt b (c ∷ bs) (inl e) =
    rw (e, eq_refl b.name) (omega (arith, length-retain-le b.name bs))
length-retain-lt b (c ∷ bs) (inr m) = ground (arith, length-retain-lt b bs m)

-- A backend that stands in the pool and passed the filter.
pub record Eligible (now : ℕ) (pool : BackendPool) (b : Backend) : Type 0 where
  pub member : Among b pool.backends
  pub routable : is_routable b ≡ true
  pub weighty : 0 < weight b
  pub can_route : breaker_can_route now pool b.name ≡ true

is_candidate-Eligible :
    (now : ℕ) (pool : BackendPool) (b : Backend)
    → Among b pool.backends
    → is_candidate now pool b ≡ true
    → Eligible now pool b
unfolding is_candidate
is_candidate-Eligible now pool b m h =
    let (p, q) = &&-eq-true _ _ h in
    let (r, w) = &&-eq-true _ _ p in
    record { member = m; routable = r; weighty = ground arith; can_route = q }

pub keep_candidates-Eligible :
    (now : ℕ) (pool : BackendPool) (bs : List Backend)
    → ((b : Backend) → Among b bs → Among b pool.backends)
    → All (Eligible now pool) (keep_candidates now pool bs)
unfolding keep_candidates
keep_candidates-Eligible now pool [] sub = tt
keep_candidates-Eligible now pool (b ∷ bs) sub =
    let rest = keep_candidates-Eligible now pool bs (λ c m. sub c (inr m)) in
    elim (Bool-cases (is_candidate now pool b)) [
      | inl e ↦ rw e (is_candidate-Eligible now pool b (sub b (inl refl)) e, rest)
      | inr e ↦ rw e rest
    ]

-- The result of the loop: no backend, or one with `P` whose breaker granted the admission.
abbrev pub Admitted : (Backend → Type 0) → ℕ → BackendPool × Option Backend → Type 0
Admitted P now (pool, none) = Unit
Admitted P now (pool, some b) =
    P b × ((q : BackendPool) × (breaker_admit now q b.name ≡ (pool, true)))

module _ (s : Surroundings) (P : Backend → Type 0) where
  admit-Admitted :
      (k : ℕ) (b : Backend) (candidates : List Backend) (pool : BackendPool)
      (next : List Backend → BackendPool → BackendPool × Option Backend)
      → P b
      → All P candidates
      → ((others : List Backend) (q : BackendPool)
          → All P others
          → Admitted P s.now (next others q))
      → Admitted P s.now (admit s k b candidates pool next)
  unfolding admit
  admit-Admitted k b candidates pool next p h later =
      let before = record pool { breakers = s.interfere k pool.breakers } in
      let after = breaker_admit s.now before b.name in
      let others = retain b.name candidates in
      elim (Bool-cases after.1) [
        | inl e ↦ rw e (p, (before, ap (λ ok. (after.0, ok)) e))
        | inr e ↦ rw e (elim (Bool-cases (is_empty others)) [
          | inl gone ↦ rw gone tt
          | inr more ↦ rw more (later others after.0 (retain-All P b.name candidates h))
        ])
      ]

  select-Admitted :
      (fuel k : ℕ) (candidates : List Backend) (pool : BackendPool)
      → All P candidates
      → Admitted P s.now (select s fuel k candidates pool)
  unfolding select
  select-Admitted zero k candidates pool h = tt
  select-Admitted (suc fuel) k candidates pool h =
      let total = total_weight candidates in
      elim (Bool-cases (total == 0)) [
        | inl e ↦ rw e tt
        | inr e ↦ elim (Option-cases (selected (s.random_range k total) candidates)) [
          | inl missed ↦ rw (e, missed) tt
          | inr (b, hit) ↦
              rw (e, hit)
                (admit-Admitted k b candidates pool (select s fuel (k + 1))
                  (All-Among P candidates b h (selected-Among candidates _ b hit)) h
                  (λ others q g. select-Admitted fuel (k + 1) others q g))
        ]
      ]

-- A mode that draws among the candidates.
abbrev pub Draws : RoutingMode → Type 0
Draws RoutingMode.shadow = ⊥
Draws _ = Unit

pub Draws-cases :
    (m : RoutingMode) → Draws m → (m ≡ RoutingMode.active_active) ⊎ (m ≡ RoutingMode.canary)
Draws-cases RoutingMode.active_active d = inl refl
Draws-cases RoutingMode.canary d = inr refl
Draws-cases RoutingMode.shadow d = absurd d

weighted-Admitted :
    (s : Surroundings) (pool : BackendPool) → Admitted (Eligible s.now pool) s.now (weighted s pool)
unfolding weighted
weighted-Admitted s pool =
    let candidates = keep_candidates s.now pool pool.backends in
    elim (Bool-cases (is_empty candidates)) [
      | inl e ↦ rw e tt
      | inr e ↦ rw e (
          select-Admitted s (Eligible s.now pool) (length candidates) 0 candidates pool
            (keep_candidates-Eligible s.now pool pool.backends (λ b m. m)))
    ]

-- What a decision in those modes is about: the backend and its admission, and no mirror.
abbrev pub Sound : ℕ → BackendPool → BackendPool × Option RoutingDecision → Type 0
Sound now pool (after, none) = Unit
Sound now pool (after, some d) =
    Eligible now pool d.backend
    × ((q : BackendPool) × (breaker_admit now q d.backend.name ≡ (after, true)))
    × (d.shadow ≡ none)

finish-Sound :
    (s : Surroundings) (routing : RoutingConfig) (pool : BackendPool)
    (r : BackendPool × Option Backend)
    → Draws routing.mode
    → Admitted (Eligible s.now pool) s.now r
    → Sound s.now pool (finish s routing r)
unfolding finish
finish-Sound s routing pool (after, none) d h = tt
finish-Sound s routing pool (after, some b) d h = elim (Draws-cases routing.mode d) [
  | inl e ↦ rw (e, finish) (h.0, h.1, refl)
  | inr e ↦ rw (e, finish) (h.0, h.1, refl)
]

-- In active-active and canary mode, whatever is drawn and whatever the other tasks do to the breakers,
-- a chosen backend is one of the pool, routable, of positive weight and let through by its breaker at
-- the enumeration; its breaker granted the admission; and nothing is mirrored.
pub decide-Sound :
    (s : Surroundings) (pool : BackendPool) (routing : RoutingConfig)
    → Draws routing.mode
    → Sound s.now pool (decide s pool routing)
unfolding decide
decide-Sound s pool routing d = elim (Draws-cases routing.mode d) [
  | inl e ↦
      rw (e, decide) (finish-Sound s routing pool (weighted s pool) d (weighted-Admitted s pool))
  | inr e ↦
      rw (e, decide) (finish-Sound s routing pool (weighted s pool) d (weighted-Admitted s pool))
]
