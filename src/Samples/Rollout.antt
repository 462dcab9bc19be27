-- ===== src/Samples/Rollout.antt =====
-- Samples of the live state.
use thttpd_rs.Base.{◌≡◌, refl, false, [], ◌∷◌, none, some, All, codes, map}
use thttpd_rs.Backend.{get, breaker_can_route, is_routable, set_weight, breaker_admit}
use thttpd_rs.Router.{RoutingConfig, RoutingDecision, decide}
use thttpd_rs.Live.{LiveState, set_weights, rollback, no_weight, set_drain_grace, drain_grace_of}
use thttpd_rs.Live.Weights.{Changed, set_weights-Changed}
use thttpd_rs.Live.Rollback.{RolledBack, rollback-RolledBack, decide-rollback}
use thttpd_rs.Samples.Proxy.{legacy, pool, calm, canary, legacy_config, rust_config}

abbrev live : RoutingConfig → LiveState
live routing = record {
  config = record {
    listen = codes "127.0.0.1:8080";
    metrics_listen = codes "127.0.0.1:9100";
    backends = ("legacy", legacy_config) ∷ ("rust", rust_config) ∷ [];
    routing = routing;
  };
  draining = false;
  drain_grace = 30;
  started_at = 0;
}

no_grace : drain_grace_of (set_drain_grace 0 (live canary)) ≡ 1
unfolding set_drain_grace drain_grace_of
no_grace = refl

all_zero_refused :
    (set_weights (live canary) pool (("legacy", 0) ∷ ("rust", 0) ∷ [])).1 ≡ some no_weight
unfolding set_weights get
all_zero_refused = refl

set_weights-Changed_example :
    Changed
      (live canary)
      pool
      (("rust", 50) ∷ [])
      (set_weights (live canary) pool (("rust", 50) ∷ []))
set_weights-Changed_example = set_weights-Changed (live canary) pool (("rust", 50) ∷ []) (tt, tt)

rollback-RolledBack_example :
    ((rollback (live canary) pool "legacy").1 ≡ none)
    × (map (λ b. b.name) (rollback (live canary) pool "legacy").0.1.backends
        ≡ map (λ b. b.name) pool.backends)
    × All (RolledBack "legacy") (rollback (live canary) pool "legacy").0.1.backends
rollback-RolledBack_example =
    rollback-RolledBack (live canary) pool "legacy" legacy (unfold get in refl)

chosen_after_rollback :
    (d : RoutingDecision) × ((decide calm (rollback (live canary) pool "legacy").0.1 canary).1
      ≡ some d)
unfolding rollback decide get is_routable set_weight breaker_can_route breaker_admit
chosen_after_rollback = (_, refl)

decide-rollback_example : chosen_after_rollback.0.backend.name ≡ "legacy"
decide-rollback_example =
    decide-rollback calm (live canary) pool "legacy" legacy canary chosen_after_rollback.0
      (unfold get in refl) tt chosen_after_rollback.1
