-- ===== src/Config/Valid.antt =====
-- What a configuration that is accepted has.
use thttpd_rs.Base.{
  ◌≡◌, ◌≢◌, refl, ◌<◌, Bool, true, false, Bool-cases, inl, inr, Option, none, some, Option-cases,
  [], ◌∷◌, String, All, Any, arith, if◌then◌else◌, ◌==◌, ltb, is_empty,
}
use text.Mathlib.TextEquality.{eq_iff}
use thttpd_rs.Backend.{BackendConfig}
use thttpd_rs.Router.{RoutingConfig, RoutingMode, active_active, shadow, canary}
use thttpd_rs.Live.{ProxyConfig}
use thttpd_rs.Config
use thttpd_rs.Config.Address.{IsAuthority, address-IsAuthority}

abbrev pub HasAuthority : String × BackendConfig → Type 0
HasAuthority (name, cfg) = IsAuthority cfg.address

addresses-HasAuthority :
    (parsers : Config.Parsers) (configs : Config.Configs)
    → Config.validate_addresses parsers configs ≡ none
    → All HasAuthority configs
unfolding Config.validate_addresses
addresses-HasAuthority parsers [] e = tt
addresses-HasAuthority parsers ((name, cfg) ∷ rest) e =
    elim (Option-cases (Config.validate_backend_address parsers cfg.address)) [
      | inl q ↦ (
        address-IsAuthority parsers cfg.address q,
        addresses-HasAuthority parsers rest (rw (q, Config.validate_addresses) at e),
      )
      | inr (x, q) ↦ absurd (cc (rw (q, Config.validate_addresses) at e))
    ]

abbrev pub IsWeighty : String × BackendConfig → Type 0
IsWeighty (name, cfg) = 0 < cfg.weight

sum_configs-IsWeighty :
    (configs : Config.Configs) → (Config.sum_configs configs == 0) ≡ false → Any IsWeighty configs
unfolding Config.sum_configs
sum_configs-IsWeighty [] h = absurd (ground arith)
sum_configs-IsWeighty ((name, cfg) ∷ rest) h = elim (Bool-cases (ltb 0 cfg.weight)) [
  | inl p ↦ inl (ground arith)
  | inr z ↦ inr (sum_configs-IsWeighty rest (ground arith))
]

-- In shadow mode there are two backends of different names, and both are configured.
abbrev pub Mirrors : RoutingConfig → Config.Configs → Type 0
Mirrors routing configs =
    routing.mode ≡ shadow
    → (primary mirror : String) × (routing.primary_backend ≡ some primary)
      × (routing.shadow_backend ≡ some mirror)
      × (primary ≢ mirror)
      × (Config.contains_key primary configs ≡ true)
      × (Config.contains_key mirror configs ≡ true)

-- What a configuration needs before the proxy starts with it.
pub record IsValid (parsers : Config.Parsers) (cfg : ProxyConfig) : Type 0 where
  pub addresses : All HasAuthority cfg.backends
  pub weighty : Any IsWeighty cfg.backends
  pub mirrors : Mirrors cfg.routing cfg.backends
  pub listens : parsers.is_socket_addr cfg.listen ≡ true
  pub shows_metrics : parsers.is_socket_addr cfg.metrics_listen ≡ true

routing-Mirrors :
    (mode : RoutingMode) (p m : Option String) (configs : Config.Configs)
    → Config.validate_routing
        (record { mode = mode; primary_backend = p; shadow_backend = m })
        configs
      ≡ none
    → Mirrors (record { mode = mode; primary_backend = p; shadow_backend = m }) configs
unfolding Config.validate_routing
routing-Mirrors active_active p m configs e q = absurd (cc)
routing-Mirrors canary p m configs e q = absurd (cc)
routing-Mirrors shadow none m configs e q = absurd (cc)
routing-Mirrors shadow (some p) none configs e q = absurd (cc)
routing-Mirrors shadow (some p) (some m) configs e q =
    let named = eq_iff p m in
    (p, m, refl, refl, (λ same. ground (arith, named)), ground arith, ground arith)

checks : (a b : Option Config.ConfigError) → Config.then_check a b ≡ none → (a ≡ none) × (b ≡ none)
checks none b e = (refl, e)
checks (some x) b e = absurd (cc)

weighed :
    (b : Bool) (x : Config.ConfigError) (y : Option Config.ConfigError)
    → (if b then some x else y) ≡ none
    → (b ≡ false) × (y ≡ none)
weighed true x y e = absurd (cc)
weighed false x y e = (refl, e)

-- A configuration that is accepted has backends with a host and a numeric port, one of them with a
-- positive weight; in shadow mode it has two configured backends of different names as the primary and
-- the shadow; and both addresses to listen on are socket addresses.
pub validate-IsValid :
    (parsers : Config.Parsers) (cfg : ProxyConfig)
    → Config.validate parsers cfg ≡ none
    → IsValid parsers cfg
unfolding Config.validate Config.validate_listen
validate-IsValid parsers cfg e =
    let (some_backend, e1) = weighed (is_empty cfg.backends) _ _ e in
    let (a, e2) = checks (Config.validate_addresses parsers cfg.backends) _ e1 in
    let (w, e3) = weighed (Config.sum_configs cfg.backends == 0) _ _ e2 in
    let (r, l) = checks (Config.validate_routing cfg.routing cfg.backends) _ e3 in
    record {
      addresses = addresses-HasAuthority parsers cfg.backends a;
      weighty = sum_configs-IsWeighty cfg.backends w;
      mirrors =
          routing-Mirrors cfg.routing.mode cfg.routing.primary_backend cfg.routing.shadow_backend
            cfg.backends r;
      listens = ground arith;
      shows_metrics = ground arith;
    }
