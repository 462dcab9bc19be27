-- ===== src/Watch.antt =====
-- rust/crates/thttpd-fdwatch/src/lib.rs: the tokens of listeners and connections. A token is its number.
use thttpd_rs.Base.{
  ℕ, ◌+◌, ◌-◌, ◌≡◌, ◌≢◌, Bool, true, false, Option, none, some, arith, ltb, leb, if◌then◌else◌,
}

abbrev pub max_listeners : ℕ
max_listeners = 16

abbrev pub conn_base : ℕ
conn_base = max_listeners

unfoldable pub listen_token : ℕ → Option ℕ
listen_token listener_idx = if ltb listener_idx max_listeners then some listener_idx else none

unfoldable pub conn_token : ℕ → ℕ
conn_token slab_key = conn_base + slab_key

unfoldable pub slab_key_from_token : ℕ → Option ℕ
slab_key_from_token token = if leb conn_base token then some (token - conn_base) else none

unfoldable pub is_listen_token : ℕ → Bool
is_listen_token token = ltb token conn_base

-- The token of a connection gives back its key and is no listener's; the token of a listener is one
-- of a listener and gives no key.
pub token_ranges :
    (key idx : ℕ)
    → (slab_key_from_token (conn_token key) ≡ some key)
      × (is_listen_token (conn_token key) ≡ false)
      × ((token : ℕ)
          → listen_token idx ≡ some token
          → (is_listen_token token ≡ true)
            × (slab_key_from_token token ≡ none)
            × (token ≢ conn_token key))
unfolding slab_key_from_token conn_token is_listen_token listen_token
token_ranges key idx = ground arith
