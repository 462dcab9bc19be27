-- ===== src/Router/Served.antt =====
-- The loop ends within its fuel, and a request is served whenever some backend is eligible.
use thttpd_rs.Base.{
  ℕ, zero, suc, ◌+◌, ◌^◌, ◌≡◌, ◌≤◌, ◌<◌, refl, sym, ◌∙◌, ap, true, false, Option, none, some, List,
  [], ◌∷◌, All, String, inl, inr, arith, Bool-cases, Option-cases, ◌==◌, ltb, length, subst,
}
use thttpd_rs.Circuit.{Breaker}
use thttpd_rs.Backend.{Backend, BackendPool, breaker_admit, weight}
use thttpd_rs.Router.{
  total_weight, selected, RoutingConfig, RoutingDecision, Surroundings, is_candidate,
  keep_candidates, retain, admit, select, weighted, finish, decided, decide,
}
use thttpd_rs.Router.Draw.{
  sum_weights, total_weight-sum, Among, selected-Among, selected-some, All-Among,
}
use thttpd_rs.Router.Chosen.{
  Eligible, keep_candidates-Eligible, length-retain-lt, Draws, Draws-cases, breaker_can_route-admit,
}

module _ (s : Surroundings) where
  admit-next :
      (k : ℕ) (b : Backend) (candidates : List Backend) (pool : BackendPool)
      (next next' : List Backend → BackendPool → BackendPool × Option Backend)
      → ((q : BackendPool) → next (retain b.name candidates) q ≡ next' (retain b.name candidates) q)
      → admit s k b candidates pool next ≡ admit s k b candidates pool next'
  unfolding admit
  admit-next k b candidates pool next next' same =
      rw (
        same
          (breaker_admit s.now (record pool { breakers = s.interfere k pool.breakers }) b.name).0)

  -- Any two fuels that are at least the number of candidates give the same result, whatever is drawn
  -- and whatever the other tasks do: the fuel of the model never ends the loop.
  pub select_fuel :
      (f g k : ℕ) (candidates : List Backend) (pool : BackendPool)
      → length candidates ≤ f
      → length candidates ≤ g
      → select s f k candidates pool ≡ select s g k candidates pool
  unfolding select
  select_fuel zero zero k candidates pool hf hg = refl
  select_fuel zero (suc g) k [] pool hf hg = unfold total_weight in refl
  select_fuel zero (suc g) k (c ∷ cs) pool hf hg = absurd (omega arith)
  select_fuel (suc f) zero k [] pool hf hg = unfold total_weight in refl
  select_fuel (suc f) zero k (c ∷ cs) pool hf hg = absurd (omega arith)
  select_fuel (suc f) (suc g) k candidates pool hf hg =
      let total = total_weight candidates in
      elim (Bool-cases (total == 0)) [
        | inl e ↦ rw e
        | inr e ↦ elim (Option-cases (selected (s.random_range k total) candidates)) [
          | inl missed ↦ rw (e, missed)
          | inr (b, hit) ↦
              rw (e, hit)
                (admit-next k b candidates pool (select s f (k + 1)) (select s g (k + 1)) λ q.
                  let shorter = length-retain-lt b candidates (selected-Among candidates _ b hit) in
                  select_fuel f g (k + 1) (retain b.name candidates) q (omega arith) (omega arith))
        ]
      ]

  -- With no other task at work the first round admits what it selects.
  select-first :
      (fuel : ℕ) (c : Backend) (cs : List Backend) (pool : BackendPool)
      → ((k : ℕ) (bs : List (String × Breaker)) → s.interfere k bs ≡ bs)
      → sum_weights (c ∷ cs) < 2 ^ 32
      → All (Eligible s.now pool) (c ∷ cs)
      → (b : Backend) × ((select s (suc fuel) 0 (c ∷ cs) pool).1 ≡ some b)
  unfolding select
  select-first fuel c cs pool quiet fits h =
      let total = total_weight (c ∷ cs) in
      let weighty = h.0.weighty in
      let e : (total == 0) ≡ false = ground (arith, total_weight-sum (c ∷ cs) fits) in
      let (b, hit) = selected-some c cs (s.random_range 0 total) in
      let ok =
        (All-Among (Eligible s.now pool) (c ∷ cs) b h
          (selected-Among (c ∷ cs) (s.random_range 0 total) b hit)).can_route in
      (
        b,
        rw (e, hit)
            (unfold admit in
              rw (quiet 0 pool.breakers, sym (breaker_can_route-admit s.now pool b.name) ∙ ok)
                refl),
      )

keep_candidates-cons :
    (now : ℕ) (pool : BackendPool) (bs : List Backend) (b : Backend)
    → Among b bs
    → is_candidate now pool b ≡ true
    → (c : Backend) × (cs : List Backend) × (keep_candidates now pool bs ≡ c ∷ cs)
unfolding keep_candidates
keep_candidates-cons now pool [] b m h = absurd m
keep_candidates-cons now pool (a ∷ bs) b m h = elim (Bool-cases (is_candidate now pool a)) [
  | inl e ↦ rw e (a, keep_candidates now pool bs, refl)
  | inr e ↦ rw e (keep_candidates-cons now pool bs b (elsewhere m e) h)
]
  where
    elsewhere : Among b (a ∷ bs) → is_candidate now pool a ≡ false → Among b bs
    elsewhere (inl same) no_candidate = absurd (cc (ap (is_candidate now pool) same))
    elsewhere (inr m') no_candidate = m'

sum_weights-keep-le :
    (now : ℕ) (pool : BackendPool) (bs : List Backend)
    → sum_weights (keep_candidates now pool bs) ≤ sum_weights bs
unfolding keep_candidates
sum_weights-keep-le now pool [] = omega arith
sum_weights-keep-le now pool (b ∷ bs) = ground (arith, sum_weights-keep-le now pool bs)

weighted-serves :
    (s : Surroundings) (pool : BackendPool) (b : Backend)
    → ((k : ℕ) (bs : List (String × Breaker)) → s.interfere k bs ≡ bs)
    → sum_weights pool.backends < 2 ^ 32
    → Among b pool.backends
    → is_candidate s.now pool b ≡ true
    → (chosen : Backend) × ((weighted s pool).1 ≡ some chosen)
unfolding weighted
weighted-serves s pool b quiet fits m h =
    let (c, cs, e) = keep_candidates-cons s.now pool pool.backends b m h in
    let small : sum_weights (c ∷ cs) < 2 ^ 32 =
      subst (λ bs. sum_weights bs < 2 ^ 32) e
        (omega (arith, sum_weights-keep-le s.now pool pool.backends)) in
    let good : All (Eligible s.now pool) (c ∷ cs) =
      subst (All (Eligible s.now pool)) e
        (keep_candidates-Eligible s.now pool pool.backends (λ x i. i)) in
    rw e (select-first s (length cs) c cs pool quiet small good)

finish-serves :
    (s : Surroundings) (routing : RoutingConfig) (r : BackendPool × Option Backend) (b : Backend)
    → Draws routing.mode
    → r.1 ≡ some b
    → (d : RoutingDecision) × ((finish s routing r).1 ≡ some d)
unfolding finish
finish-serves s routing (after, none) b d e = absurd (cc)
finish-serves s routing (after, some c) b d e = elim (Draws-cases routing.mode d) [
  | inl mode ↦ (decided s none c, rw (mode, finish) refl)
  | inr mode ↦ (decided s none c, rw (mode, finish) refl)
]

Eligible-is_candidate :
    (now : ℕ) (pool : BackendPool) (b : Backend)
    → Eligible now pool b
    → is_candidate now pool b ≡ true
unfolding is_candidate
Eligible-is_candidate now pool b h =
    let positive : ltb 0 (weight b) ≡ true = ground (arith, h.weighty) in
    rw (h.routable, positive, h.can_route) refl

-- In active-active and canary mode, with no other task at work and weights that add up to a `u32`,
-- a request is routed whenever some backend of the pool is routable, has a positive weight and is let
-- through by its breaker, whatever is drawn.
pub decide-serves :
    (s : Surroundings) (pool : BackendPool) (routing : RoutingConfig) (b : Backend)
    → Draws routing.mode
    → ((k : ℕ) (bs : List (String × Breaker)) → s.interfere k bs ≡ bs)
    → sum_weights pool.backends < 2 ^ 32
    → Eligible s.now pool b
    → (d : RoutingDecision) × ((decide s pool routing).1 ≡ some d)
unfolding decide
decide-serves s pool routing b d quiet fits h =
    let (chosen, e) =
      weighted-serves s pool b quiet fits h.member (Eligible-is_candidate s.now pool b h) in
    let done = finish-serves s routing (weighted s pool) chosen d e in
    elim (Draws-cases routing.mode d) [
      | inl mode ↦ rw (mode, decide) done
      | inr mode ↦ rw (mode, decide) done
    ]
