-- ===== src/Samples/Proxy.antt =====
-- Samples of the circuit breaker, health and routing.
use thttpd_rs.Base.{
  ◌*◌, ◌^◌, ◌≡◌, ◌<◌, ◌≤◌, refl, inl, true, false, [], ◌∷◌, codes, none, some, arith, ltb,
}
use thttpd_rs.Circuit
use thttpd_rs.Circuit.{
  Breaker, CircuitConfig, State, closed, open_state, half_open, nanos, cool_off, counted,
  over_threshold, record_outcome, try_admit, can_route,
}
use thttpd_rs.Circuit.Invariant.{IsSound, Reach-IsSound, created, called, recorded, admitted}
use thttpd_rs.Circuit.Probe.{ProbeCycle, try_admit-ProbeCycle}
use thttpd_rs.Circuit.Trips.{outcomes}
use thttpd_rs.Backend
use thttpd_rs.Backend.{
  Backend, BackendConfig, BackendPool, HealthConfig, with_breaker_cfg, is_routable,
}
use thttpd_rs.Backend.Probes.{probes, probes-is_routable}
use thttpd_rs.Router.{
  Surroundings, RoutingConfig, RoutingDecision, RoutingMode, decide, select, selected, is_candidate,
}
use thttpd_rs.Router.Draw.{selected-share}
use thttpd_rs.Router.Chosen.{Sound, decide-Sound}
use thttpd_rs.Router.Served.{select_fuel, decide-serves}
use thttpd_rs.Router.Shadow.{Mirrored, decide-Mirrored}

-- The rate of the default configuration: more than half of the outcomes are errors.
abbrev default_cfg : CircuitConfig
default_cfg = record {
  window_secs = 30;
  min_requests = 2;
  exceeds = λ errors total. ltb total (2 * errors);
}

abbrev tripped : Breaker
tripped = record {
  state = open_state;
  opened_at = some 0;
  probe_in_flight = false;
  window = record { errors = 0; total = 0; started = 0 };
  cfg = default_cfg;
}

two_failures_trip :
    (outcomes ((1, false) ∷ (2, false) ∷ []) (Circuit.new 0 default_cfg)).state ≡ open_state
unfolding outcomes record_outcome Circuit.new
two_failures_trip = refl

Reach-IsSound_example : IsSound (try_admit 9 (record_outcome 5 false (Circuit.new 0 default_cfg))).0
Reach-IsSound_example =
    Reach-IsSound default_cfg (called (called (created 0) (recorded 5 false)) (admitted 9))

try_admit-ProbeCycle_example : ProbeCycle cool_off tripped
try_admit-ProbeCycle_example = try_admit-ProbeCycle cool_off 0 tripped refl refl refl (omega arith)

abbrev thresholds : HealthConfig
thresholds = record { failure_threshold = 3; success_threshold = 2 }

abbrev pub legacy_config : BackendConfig
legacy_config = record { address = codes "127.0.0.1:8081"; weight = 90; health_path = codes "/" }

abbrev pub rust_config : BackendConfig
rust_config = record { address = codes "127.0.0.1:8082"; weight = 10; health_path = codes "/" }

probes-is_routable_example :
    (3 < 3 → is_routable (probes thresholds false 3 (Backend.new "rust" rust_config)) ≡ true)
    × (3 ≤ 3
        → (1 < 2
            → is_routable (
                probes thresholds true 1
                  (probes thresholds false 3 (Backend.new "rust" rust_config)))
              ≡ false)
          × (2 ≤ 1
              → is_routable (
                  probes thresholds true 1
                    (probes thresholds false 3 (Backend.new "rust" rust_config)))
                ≡ true))
probes-is_routable_example =
    probes-is_routable thresholds "rust" rust_config 3 1 (omega arith) (omega arith) (omega arith)
      (omega arith)

abbrev pub legacy : Backend
legacy = record {
  name = "legacy";
  config = legacy_config;
  health = Backend.healthy;
  consecutive_failures = 0;
  consecutive_successes = 0;
}

abbrev pub rust : Backend
rust = record {
  name = "rust";
  config = rust_config;
  health = Backend.healthy;
  consecutive_failures = 0;
  consecutive_successes = 0;
}

abbrev pub pool : BackendPool
pool = record { backends = legacy ∷ rust ∷ []; breakers = ("rust", tripped) ∷ [] }

-- The draw always gives 95; nobody else is at work.
abbrev pub calm : Surroundings
calm = record { now = cool_off; request_id = "r"; random_range = λ k n. 95; interfere = λ k bs. bs }

abbrev pub canary : RoutingConfig
canary = record { mode = RoutingMode.canary; primary_backend = none; shadow_backend = none }

abbrev pub mirroring : RoutingConfig
mirroring = record {
  mode = RoutingMode.shadow;
  primary_backend = some "legacy";
  shadow_backend = some "rust";
}

the_draw_takes_rust :
    (decide calm pool canary).1
    ≡ some (record { backend = rust; shadow = none; request_id = "r"; started_at = cool_off })
unfolding decide is_routable Backend.breaker_can_route can_route Backend.breaker_admit try_admit
the_draw_takes_rust = refl

selected-share_example : selected 95 (legacy ∷ rust ∷ []) ≡ some rust
selected-share_example =
    selected-share (legacy ∷ []) rust [] 95 (omega arith) (omega arith) (omega arith)

decide-Sound_example : Sound cool_off pool (decide calm pool canary)
decide-Sound_example = decide-Sound calm pool canary tt

select_fuel_example :
    select calm 2 0 (legacy ∷ rust ∷ []) pool ≡ select calm 7 0 (legacy ∷ rust ∷ []) pool
select_fuel_example = select_fuel calm 2 7 0 (legacy ∷ rust ∷ []) pool (omega arith) (omega arith)

decide-serves_example : (d : RoutingDecision) × ((decide calm pool canary).1 ≡ some d)
unfolding is_candidate is_routable Backend.breaker_can_route
decide-serves_example =
    decide-serves calm pool canary legacy tt (λ k bs. refl) (omega arith)
      (record { member = inl refl; routable = refl; weighty = omega arith; can_route = refl })

decide-Mirrored_example : Mirrored cool_off pool mirroring (decide calm pool mirroring)
decide-Mirrored_example = decide-Mirrored calm pool mirroring refl (λ k bs. refl)

-- Weights that are accepted one by one can wrap to a total of zero, and then no backend is chosen.
abbrev heavy : Backend → Backend
heavy b = record b { config = record b.config { weight = 2 ^ 31 } }

heavy_weights_route_nothing :
    (decide calm (record { backends = heavy legacy ∷ heavy rust ∷ []; breakers = [] }) canary).1
    ≡ none
unfolding decide is_routable Backend.breaker_can_route
heavy_weights_route_nothing = refl
