-- ===== src/Router.antt =====
-- rust/crates/thttpd-migrate/src/router.rs: one routing decision.
-- `rand` and the other tasks of the proxy are parameters: `random_range k total` is the draw of round
-- `k`, and `interfere k` is what the others do to the breakers before the admission of round `k`.
-- Health and weights are those at the start of the decision.
pub mod Draw
pub mod Chosen
pub mod Served
pub mod Shadow
use text.Mathlib.Text.{◌==◌ as str_eq}
use thttpd_rs.Base.{
  ℕ, zero, suc, ◌+◌, ◌%◌, ◌^◌, Bool, true, false, not, ◌&&◌, Option, none, some, List, [], ◌∷◌,
  String, ltb, ◌==◌, if◌then◌else◌, is_empty, length,
}
use thttpd_rs.Circuit.{Breaker}
use thttpd_rs.Backend
use thttpd_rs.Backend.{Backend, BackendPool, weight, is_routable, breaker_can_route, breaker_admit}

pub data RoutingMode : Type 0 where
  active_active shadow canary : RoutingMode

pub record RoutingConfig : Type 0 where
  pub mode : RoutingMode
  pub primary_backend : Option String
  pub shadow_backend : Option String

pub record RoutingDecision : Type 0 where
  pub backend : Backend
  pub shadow : Option Backend
  pub request_id : String
  pub started_at : ℕ

pub record Surroundings : Type 0 where
  pub now : ℕ
  pub request_id : String
  pub random_range : ℕ → ℕ → ℕ
  pub interfere : ℕ → List (String × Breaker) → List (String × Breaker)

-- The filter of the enumeration, which changes nothing.
unfoldable pub is_candidate : ℕ → BackendPool → Backend → Bool
is_candidate now pool b = is_routable b && ltb 0 (weight b) && breaker_can_route now pool b.name

unfoldable pub keep_candidates : ℕ → BackendPool → List Backend → List Backend
unfolding is_candidate
keep_candidates now pool [] = []
keep_candidates now pool (b ∷ bs) =
    let rest = keep_candidates now pool bs in if is_candidate now pool b then b ∷ rest else rest

-- The sum of `u32` weights, which wraps.
unfoldable pub total_weight : List Backend → ℕ
total_weight [] = 0
total_weight (b ∷ bs) = (weight b + total_weight bs) % 2 ^ 32

-- The first backend at which the running sum passes `pick`.
unfoldable pub draw : ℕ → ℕ → List Backend → Option Backend
draw pick acc [] = none
draw pick acc (b ∷ bs) =
    let acc' = (acc + weight b) % 2 ^ 32 in
    let later = draw pick acc' bs in if ltb pick acc' then some b else later

last : List Backend → Option Backend
last [] = none
last (b ∷ []) = some b
last (b ∷ c ∷ bs) = last (c ∷ bs)

or_else : Option Backend → Option Backend → Option Backend
or_else (some b) other = some b
or_else none other = other

unfoldable pub selected : ℕ → List Backend → Option Backend
unfolding draw last or_else
selected pick bs = or_else (draw pick 0 bs) (last bs)

pub retain : String → List Backend → List Backend
retain name [] = []
retain name (b ∷ bs) = let rest = retain name bs in if str_eq b.name name then rest else b ∷ rest

-- The end of a round: the admission, and the retry among the others, with the later rounds as `next`.
admit :
    Surroundings
    → ℕ
    → Backend
    → List Backend
    → BackendPool
    → (List Backend → BackendPool → BackendPool × Option Backend)
    → BackendPool × Option Backend
unfolding retain
admit s k b candidates pool next =
    let (pool', ok) =
      breaker_admit s.now (record pool { breakers = s.interfere k pool.breakers }) b.name in
    let others = retain b.name candidates in
    if ok then (pool', some b) else if is_empty others then (pool', none) else next others pool'

-- `loop`: a round, on fuel. The number of candidates falls in each round.
unfoldable pub select :
    Surroundings → ℕ → ℕ → List Backend → BackendPool → BackendPool × Option Backend
unfolding total_weight selected admit
select s zero k candidates pool = (pool, none)
select s (suc fuel) k candidates pool =
    let total = total_weight candidates in
    let next = select s fuel (k + 1) in
    if total == 0 then (pool, none) else elim (selected (s.random_range k total) candidates) [
      | none ↦ (pool, none)
      | some b ↦ admit s k b candidates pool next
    ]

pub weighted : Surroundings → BackendPool → BackendPool × Option Backend
unfolding keep_candidates select
weighted s pool =
    let candidates = keep_candidates s.now pool pool.backends in
    if is_empty candidates then (pool, none) else select s (length candidates) 0 candidates pool

-- Shadow mode: the configured primary, or none.
unfoldable pub primary : Surroundings → BackendPool → RoutingConfig → BackendPool × Option Backend
primary s pool routing = elim routing.primary_backend [
  | none ↦ (pool, none)
  | some name ↦ elim (Backend.get pool name) [
    | none ↦ (pool, none)
    | some b ↦
        if is_routable b && breaker_can_route s.now pool b.name
        then (let (pool', ok) =
              breaker_admit s.now (record pool { breakers = s.interfere 0 pool.breakers }) b.name in
            (pool', if ok then some b else none))
        else (pool, none)
  ]
]

unfoldable pub mirror : Surroundings → BackendPool → RoutingConfig → Backend → Option Backend
mirror s pool routing chosen = elim routing.shadow_backend [
  | none ↦ none
  | some name ↦ elim (Backend.get pool name) [
    | none ↦ none
    | some b ↦
        if not (str_eq b.name chosen.name) && is_routable b && breaker_can_route s.now pool b.name
        then some b
        else none
  ]
]

pub decided : Surroundings → Option Backend → Backend → RoutingDecision
decided s mirrored chosen = record {
  backend = chosen;
  shadow = mirrored;
  request_id = s.request_id;
  started_at = s.now;
}

finish :
    Surroundings
    → RoutingConfig
    → BackendPool × Option Backend
    → BackendPool × Option RoutingDecision
unfolding mirror decided
finish s routing (pool, none) = (pool, none)
finish s routing (pool, some chosen) = elim routing.mode [
  | shadow ↦ (pool, some (decided s (mirror s pool routing chosen) chosen))
  | _ ↦ (pool, some (decided s none chosen))
]

unfoldable pub decide :
    Surroundings → BackendPool → RoutingConfig → BackendPool × Option RoutingDecision
unfolding weighted primary finish
decide s pool routing = elim routing.mode [
  | shadow ↦ finish s routing (primary s pool routing)
  | _ ↦ finish s routing (weighted s pool)
]
