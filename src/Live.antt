-- ===== src/Live.antt =====
-- rust/crates/thttpd-migrate/src/state.rs: the live state, with the commands that change weights. A map
-- is the list of its pairs. The control lock makes the commands run one at a time.
pub mod Weights
pub mod Rollback
use text.Mathlib.Text.{◌==◌ as str_eq}
use thttpd_rs.Base.{
  ℕ, ◌+◌, ◌%◌, ◌^◌, ◌≡◌, Bool, true, false, not, List, [], ◌∷◌, Option, none, some, String, Bytes,
  map, max, ltb, leb, if◌then◌else◌,
}
use thttpd_rs.Backend
use thttpd_rs.Backend.{Backend, BackendConfig, BackendPool, get, weight, set_weight}
use thttpd_rs.Router.{RoutingConfig, RoutingMode, shadow}

pub record ProxyConfig : Type 0 where
  pub listen : Bytes
  pub metrics_listen : Bytes
  pub backends : List (String × BackendConfig)
  pub routing : RoutingConfig

pub record LiveState : Type 0 where
  pub config : ProxyConfig
  pub draining : Bool
  pub drain_grace : ℕ
  pub started_at : ℕ

abbrev pub default_drain_grace_secs : ℕ
default_drain_grace_secs = 30

unfoldable pub new : ℕ → ProxyConfig → LiveState
new now cfg = record {
  config = cfg;
  draining = false;
  drain_grace = default_drain_grace_secs;
  started_at = now;
}

unfoldable pub start_drain : LiveState → LiveState
start_drain s = record s { draining = true }

unfoldable pub is_draining : LiveState → Bool
is_draining s = s.draining

unfoldable pub set_drain_grace : ℕ → LiveState → LiveState
set_drain_grace secs s = record s { drain_grace = max secs 1 }

unfoldable pub drain_grace_of : LiveState → ℕ
drain_grace_of s = s.drain_grace

abbrev pub Weights : Type 0
Weights = List (String × ℕ)

-- Why a command is refused.
pub data Refusal : Type 0 where
  unknown_backend no_weight : Refusal

unfoldable pub lookup : String → Weights → Option ℕ
lookup name [] = none
lookup name ((n, w) ∷ ws) = if str_eq n name then some w else lookup name ws

unfoldable pub all_known : BackendPool → Weights → Bool
all_known pool [] = true
all_known pool ((n, _) ∷ ws) = elim (get pool n) [ none ↦ false | some _ ↦ all_known pool ws ]

-- `weights.get(&b.name).copied().unwrap_or_else(|| b.weight())`
unfoldable pub prospective : Weights → Backend → ℕ
unfolding lookup
prospective ws b = elim (lookup b.name ws) [ none ↦ weight b | some w ↦ w ]

-- The sum is a `u64`.
unfoldable pub prospective_total : Weights → List Backend → ℕ
unfolding prospective
prospective_total ws [] = 0
prospective_total ws (b ∷ bs) = (prospective ws b + prospective_total ws bs) % 2 ^ 64

-- `if let Some(b) = pool.get(name) { b.set_weight(weight) }`: the backend is shared and changes in
-- place; a name is the key of one backend, and with no backend of the name nothing changes.
unfoldable pub set_named : String → ℕ → Backend → Backend
set_named name w b = if str_eq b.name name then set_weight w b else b

unfoldable pub apply_weights : Weights → List Backend → List Backend
unfolding set_named
apply_weights [] bs = bs
apply_weights ((name, w) ∷ ws) bs = apply_weights ws (map (set_named name w) bs)

-- The same in a fresh configuration.
unfoldable pub set_config : String → ℕ → String × BackendConfig → String × BackendConfig
set_config name w (n, cfg) = (n, if str_eq n name then record cfg { weight = w } else cfg)

unfoldable pub apply_configs :
    Weights → List (String × BackendConfig) → List (String × BackendConfig)
unfolding set_config
apply_configs [] cs = cs
apply_configs ((name, w) ∷ ws) cs = apply_configs ws (map (set_config name w) cs)

-- The last statements of both commands.
unfoldable pub applied : Weights → LiveState → BackendPool → LiveState × BackendPool
unfolding apply_weights apply_configs
applied ws s pool = (
  record s { config = record s.config { backends = apply_configs ws s.config.backends } },
  record pool { backends = apply_weights ws pool.backends },
)

unfoldable pub set_weights :
    LiveState → BackendPool → Weights → (LiveState × BackendPool) × Option Refusal
unfolding all_known prospective_total applied
set_weights s pool weights =
    if not (all_known pool weights)
    then ((s, pool), some unknown_backend)
    else if not (ltb 0 (prospective_total weights pool.backends))
    then ((s, pool), some no_weight)
    else (applied weights s pool, none)

-- The map that the rollback builds.
unfoldable pub rollback_weight : String → String → ℕ
rollback_weight target name = if str_eq name target then 100 else 0

unfoldable pub rollback_weights : String → List Backend → Weights
unfolding rollback_weight
rollback_weights target [] = []
rollback_weights target (b ∷ bs) =
    (b.name, rollback_weight target b.name) ∷ rollback_weights target bs

-- `o.filter(|name| name != target)`
unfoldable pub other_than : String → Option String → Option String
other_than target none = none
other_than target (some n) = if str_eq n target then none else some n

unfoldable pub first_other : String → List (String × BackendConfig) → Option String
first_other target [] = none
first_other target ((n, _) ∷ cs) = if str_eq n target then first_other target cs else some n

abbrev pub or_else : Option String → Option String → Option String
or_else none b = b
or_else (some a) b = some a

-- `previous_primary.as_deref() != Some(target)`, negated.
unfoldable pub names : Option String → String → Bool
names none target = false
names (some n) target = str_eq n target

-- The promotion of the target in shadow mode.
unfoldable pub promoted : String → ProxyConfig → ProxyConfig
unfolding other_than first_other names
promoted target cfg = elim cfg.routing.mode [
  | shadow ↦ if names cfg.routing.primary_backend target then cfg else record cfg {
    routing = record cfg.routing {
      primary_backend = some target;
      shadow_backend = or_else (other_than target cfg.routing.primary_backend) (
          or_else (other_than target cfg.routing.shadow_backend) (first_other target cfg.backends));
    };
  }
  | _ ↦ cfg
]

unfoldable pub rollback :
    LiveState → BackendPool → String → (LiveState × BackendPool) × Option Refusal
unfolding rollback_weights applied promoted
rollback s pool target = elim (get pool target) [
  | none ↦ ((s, pool), some unknown_backend)
  | some _ ↦
      let (s', pool') = applied (rollback_weights target pool.backends) s pool in
      ((record s' { config = promoted target s'.config }, pool'), none)
]
