-- ===== src/Backend.antt =====
-- rust/crates/thttpd-migrate/src/backend.rs and health.rs: the backends, their health and their pool.
-- A `HashMap` of backends is the list of its values, in the map's own order; the map's key of a
-- backend is its name.
pub mod Probes
pub mod Pool
use text.Mathlib.Text.{◌==◌ as str_eq}
use thttpd_rs.Base.{
  ℕ, ◌+◌, ◌%◌, ◌^◌, Bool, true, false, not, ◌&&◌, Option, none, some, List, [], ◌∷◌, Bytes, String,
  leb, if◌then◌else◌,
}
use thttpd_rs.Circuit
use thttpd_rs.Circuit.{Breaker, CircuitConfig}

pub record BackendConfig : Type 0 where
  pub address : Bytes
  pub weight : ℕ
  pub health_path : Bytes

pub data Health : Type 0 where
  healthy degraded unhealthy : Health

pub record Backend : Type 0 where
  pub name : String
  pub config : BackendConfig
  pub health : Health
  pub consecutive_failures : ℕ
  pub consecutive_successes : ℕ

unfoldable pub new : String → BackendConfig → Backend
new name config = record {
  name = name;
  config = config;
  health = healthy;
  consecutive_failures = 0;
  consecutive_successes = 0;
}

abbrev pub same_health : Health → Health → Bool
same_health healthy healthy = true
same_health degraded degraded = true
same_health unhealthy unhealthy = true
same_health _ _ = false

unfoldable pub is_routable : Backend → Bool
is_routable b = not (same_health b.health unhealthy)

abbrev pub weight : Backend → ℕ
weight b = b.config.weight

unfoldable pub set_weight : ℕ → Backend → Backend
set_weight w b = record b { config = record b.config { weight = w } }

pub record HealthConfig : Type 0 where
  pub failure_threshold : ℕ
  pub success_threshold : ℕ

-- A probe's outcome; the counters are `u32`.
succeeded : HealthConfig → Backend → Backend
succeeded cfg b =
    let n = (b.consecutive_successes + 1) % 2 ^ 32 in
    record b {
      health =
          if leb cfg.success_threshold n && not (same_health b.health healthy)
          then healthy
          else b.health;
      consecutive_failures = 0;
      consecutive_successes = n;
    }

failed : HealthConfig → Backend → Backend
failed cfg b =
    let n = (b.consecutive_failures + 1) % 2 ^ 32 in
    record b {
      health =
          if leb cfg.failure_threshold n && not (same_health b.health unhealthy)
          then unhealthy
          else b.health;
      consecutive_failures = n;
      consecutive_successes = 0;
    }

unfoldable pub update_health : HealthConfig → Bool → Backend → Backend
unfolding succeeded failed
update_health cfg success b = if success then succeeded cfg b else failed cfg b

pub record BackendPool : Type 0 where
  pub backends : List Backend
  pub breakers : List (String × Breaker)

new_all : List (String × BackendConfig) → List Backend
new_all [] = []
new_all ((name, cfg) ∷ rest) = new name cfg ∷ new_all rest

-- `Breakers::from_config`
breakers_from_config : ℕ → List (String × BackendConfig) → CircuitConfig → List (String × Breaker)
breakers_from_config now [] cfg = []
breakers_from_config now ((name, _) ∷ rest) cfg =
    (name, Circuit.new now cfg) ∷ breakers_from_config now rest cfg

unfoldable pub with_breaker_cfg : ℕ → List (String × BackendConfig) → CircuitConfig → BackendPool
unfolding new_all breakers_from_config
with_breaker_cfg now backends cfg = record {
  backends = new_all backends;
  breakers = breakers_from_config now backends cfg;
}

find : String → List Backend → Option Backend
find name [] = none
find name (b ∷ bs) = if str_eq b.name name then some b else find name bs

unfoldable pub get : BackendPool → String → Option Backend
unfolding find
get pool name = find name pool.backends

find_breaker : String → List (String × Breaker) → Option Breaker
find_breaker name [] = none
find_breaker name ((n, b) ∷ rest) = if str_eq n name then some b else find_breaker name rest

-- `Breakers::get`
unfoldable pub breaker : BackendPool → String → Option Breaker
unfolding find_breaker
breaker pool name = find_breaker name pool.breakers

store_breaker : String → Breaker → List (String × Breaker) → List (String × Breaker)
store_breaker name new_value [] = []
store_breaker name new_value ((n, b) ∷ rest) =
    if str_eq n name then (n, new_value) ∷ rest else (n, b) ∷ store_breaker name new_value rest

-- A breaker is changed in place.
put_breaker : BackendPool → String → Breaker → BackendPool
unfolding store_breaker
put_breaker pool name b = record pool { breakers = store_breaker name b pool.breakers }

unfoldable pub breaker_can_route : ℕ → BackendPool → String → Bool
unfolding breaker
breaker_can_route now pool name = elim (breaker pool name) [
  | none ↦ true
  | some b ↦ Circuit.can_route now b
]

unfoldable pub breaker_admit : ℕ → BackendPool → String → BackendPool × Bool
unfolding breaker put_breaker
breaker_admit now pool name = elim (breaker pool name) [
  | none ↦ (pool, true)
  | some b ↦ (put_breaker pool name (Circuit.try_admit now b).0, (Circuit.try_admit now b).1)
]

unfoldable pub breaker_allows : ℕ → BackendPool → String → BackendPool × Bool
unfolding breaker put_breaker
breaker_allows now pool name = elim (breaker pool name) [
  | none ↦ (pool, true)
  | some b ↦ (put_breaker pool name (Circuit.allows now b).0, (Circuit.allows now b).1)
]

unfoldable pub breaker_release_probe : ℕ → BackendPool → String → BackendPool
unfolding breaker put_breaker
breaker_release_probe now pool name = elim (breaker pool name) [
  | none ↦ pool
  | some b ↦ put_breaker pool name (Circuit.release_probe now b)
]

unfoldable pub record_outcome : ℕ → BackendPool → String → Bool → BackendPool
unfolding breaker put_breaker
record_outcome now pool name success = elim (breaker pool name) [
  | none ↦ pool
  | some b ↦ put_breaker pool name (Circuit.record_outcome now success b)
]
