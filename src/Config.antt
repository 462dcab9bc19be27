-- ===== src/Config.antt =====
-- rust/crates/thttpd-migrate/src/config.rs: the check of a configuration once serde has read it. Whether a
-- text is a URI or a socket address is said from outside.
pub mod Address
pub mod Valid
use thttpd_rs.Base.{
  ℕ, ◌+◌, ◌%◌, ◌^◌, Bool, true, false, not, ◌&&◌, ◌||◌, Option, none, some, List, [], ◌∷◌, ◌++◌,
  Bytes, String, codes, if◌then◌else◌, ◌==◌, ltb, leb, take, drop, is_empty, contains, contains_sub,
  find_sub, starts_with, white_len,
}
use text.Mathlib.Text.{◌==◌ as str_eq}
use thttpd_rs.Backend.{BackendConfig}
use thttpd_rs.Router.{RoutingMode, RoutingConfig, shadow}
use thttpd_rs.Live.{ProxyConfig}

pub record Parsers : Type 0 where
  pub is_uri : Bytes → Bool
  pub is_socket_addr : Bytes → Bool

-- The message of a failed `ensure!`.
pub data AddressError : Type 0 where
  empty scheme path whitespace no_host no_port bad_port no_uri : AddressError

pub data ConfigError : Type 0 where
  no_backend : ConfigError
  address : String → AddressError → ConfigError
  no_weight no_primary no_shadow same_backend unknown_primary unknown_shadow : ConfigError
  listen metrics_listen : ConfigError

unfoldable pub has_whitespace : Bytes → Bool
unfolding white_len
has_whitespace [] = false
has_whitespace (c ∷ s) = ltb 0 (white_len (c ∷ s)) || has_whitespace s

-- What stands before and behind the last colon.
unfoldable pub last_colon : Bytes → Option (Bytes × Bytes)
last_colon [] = none
last_colon (c ∷ s) = elim (last_colon s) [
  | some (before, behind) ↦ some (c ∷ before, behind)
  | none ↦ if c == b':' then some ([], s) else none
]

unfoldable pub split_host_port : Bytes → Bytes × Option Bytes
unfolding starts_with find_sub last_colon
split_host_port authority =
    if starts_with (codes "[") authority
    then elim (find_sub (codes "]:") authority) [
      | some i ↦ (take (i + 1) authority, some (drop (i + 2) authority))
      | none ↦ (authority, none)
    ]
    else elim (last_colon authority) [
      | some (host, port) ↦ (host, some port)
      | none ↦ (authority, none)
    ]

unfoldable pub all_digits : Bytes → Bool
all_digits [] = true
all_digits (c ∷ s) = leb b'0' c && leb c b'9' && all_digits s

-- The checks of the parts.
unfoldable pub validate_parts : Parsers → Bytes → Bytes × Option Bytes → Option AddressError
unfolding all_digits
validate_parts parsers addr (host, none) = if is_empty host then some no_host else some no_port
validate_parts parsers addr (host, some port) =
    if is_empty host
    then some no_host
    else if is_empty port || not (all_digits port)
    then some bad_port
    else if parsers.is_uri (codes "http://" ++ (addr ++ codes "/"))
    then none
    else some no_uri

-- `none` is success.
unfoldable pub validate_backend_address : Parsers → Bytes → Option AddressError
unfolding has_whitespace split_host_port validate_parts contains_sub
validate_backend_address parsers addr =
    if is_empty addr
    then some empty
    else if contains_sub (codes "://") addr
    then some scheme
    else if contains b'/' addr || contains b'?' addr || contains b'#' addr
    then some path
    else if has_whitespace addr
    then some whitespace
    else validate_parts parsers addr (split_host_port addr)

abbrev pub Configs : Type 0
Configs = List (String × BackendConfig)

unfoldable pub validate_addresses : Parsers → Configs → Option ConfigError
unfolding validate_backend_address
validate_addresses parsers [] = none
validate_addresses parsers ((name, cfg) ∷ rest) =
    let others = validate_addresses parsers rest in
    elim (validate_backend_address parsers cfg.address) [
      | some e ↦ some (address name e)
      | none ↦ others
    ]

-- The sum of `u32` weights, which wraps.
unfoldable pub sum_configs : Configs → ℕ
sum_configs [] = 0
sum_configs ((_, cfg) ∷ rest) = (cfg.weight + sum_configs rest) % 2 ^ 32

unfoldable pub contains_key : String → Configs → Bool
contains_key name [] = false
contains_key name ((n, _) ∷ rest) = str_eq n name || contains_key name rest

unfoldable pub validate_routing : RoutingConfig → Configs → Option ConfigError
unfolding contains_key
validate_routing routing configs = elim routing.mode [
  | shadow ↦ elim routing.primary_backend [
    | none ↦ some no_primary
    | some primary ↦ elim routing.shadow_backend [
      | none ↦ some no_shadow
      | some mirror ↦
          if str_eq primary mirror
          then some same_backend
          else if not (contains_key primary configs)
          then some unknown_primary
          else if not (contains_key mirror configs)
          then some unknown_shadow
          else none
    ]
  ]
  | _ ↦ none
]

unfoldable pub validate_listen : Parsers → ProxyConfig → Option ConfigError
validate_listen parsers cfg =
    if not (parsers.is_socket_addr cfg.listen)
    then some listen
    else if not (parsers.is_socket_addr cfg.metrics_listen)
    then some metrics_listen
    else none

-- The second result where the first is success.
abbrev pub then_check : Option ConfigError → Option ConfigError → Option ConfigError
then_check none b = b
then_check (some e) b = some e

unfoldable pub validate : Parsers → ProxyConfig → Option ConfigError
unfolding validate_addresses sum_configs validate_routing validate_listen
validate parsers cfg =
    if is_empty cfg.backends
    then some no_backend
    else then_check (validate_addresses parsers cfg.backends) (
        if sum_configs cfg.backends == 0
        then some no_weight
        else then_check (validate_routing cfg.routing cfg.backends) (validate_listen parsers cfg))
