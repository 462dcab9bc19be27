-- ===== src/Slot.antt =====
-- rust/crates/thttpd-core/src/connection.rs: a slot of the connection table and its throttle state.
-- Times are in nanoseconds; a stream and a peer address are the numbers of their handles.
use thttpd_rs.Base.{ℕ, ◌≡◌, refl, Bool, true, false, not, Option, none, List, [], is_empty}
use thttpd_rs.Base.Int.{ℤ, pos, negsuc}
use thttpd_rs.Conn
use thttpd_rs.Conn.{ConnState, HttpConn, free}

abbrev pub no_limit : ℤ
no_limit = negsuc 0

pub record ConnThrottle : Type 0 where
  pub tnums : List ℕ
  pub max_limit : ℤ
  pub min_limit : ℤ
  pub header_len : ℕ
  pub body_bytes : ℤ
  pub started_at : Option ℕ
  pub active_at : Option ℕ
  pub pause_until : Option ℕ
  pub checked : Bool

unfoldable pub new_throttle : ConnThrottle
new_throttle = record {
  tnums = [];
  max_limit = no_limit;
  min_limit = no_limit;
  header_len = 0;
  body_bytes = pos 0;
  started_at = none;
  active_at = none;
  pause_until = none;
  checked = false;
}

unfoldable pub is_throttled : ConnThrottle → Bool
is_throttled t = not (is_empty t.tnums)

unfoldable pub reset_throttle : ConnThrottle → ConnThrottle
reset_throttle t = record t {
  tnums = [];
  max_limit = no_limit;
  min_limit = no_limit;
  header_len = 0;
  body_bytes = pos 0;
  started_at = none;
  active_at = none;
  pause_until = none;
  checked = false;
}

pub record ConnSlot : Type 0 where
  pub state : ConnState
  pub stream : Option ℕ
  pub http : HttpConn
  pub peer_addr : Option ℕ
  pub throttle : ConnThrottle
  pub is_cgi : Bool
  pub pending_cgi_body : Bool

unfoldable pub new_slot : ConnSlot
unfolding new_throttle
new_slot = record {
  state = free;
  stream = none;
  http = Conn.new;
  peer_addr = none;
  throttle = new_throttle;
  is_cgi = false;
  pending_cgi_body = false;
}

unfoldable pub is_free : ConnSlot → Bool
is_free s = elim s.state [ free ↦ true | _ ↦ false ]

-- The throttle state of a connection that is reset is that of a new slot, which is free and not
-- throttled.
pub reset_throttle-new_slot :
    (t : ConnThrottle)
    → (reset_throttle t ≡ new_slot.throttle)
      × (is_throttled (reset_throttle t) ≡ false)
      × (is_free new_slot ≡ true)
unfolding reset_throttle new_slot is_throttled is_free
reset_throttle-new_slot t = (refl, refl, refl)
