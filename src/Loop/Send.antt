-- ===== src/Loop/Send.antt =====
-- rust/crates/thttpd-core/src/eventloop.rs: sending, pausing and lingering. `none` is a panic.
pub mod Bounds
pub mod Budget
pub mod Spent
use thttpd_rs.Base.{
  ℕ, ◌+◌, ◌-◌, ◌/◌, ◌^◌, Bool, true, false, not, ◌&&◌, Option, none, some, List, [], ◌∷◌,
  if◌then◌else◌, ◌==◌, ltb, length, min, max,
}
use thttpd_rs.Base.Int.{ℤ, pos, negsuc, ◌+ℤ◌, ◌-ℤ◌, ◌*ℤ◌, ltb_ℤ, max_ℤ}
use thttpd_rs.Conn.{sending, pausing}
use thttpd_rs.Slot.{ConnThrottle, ConnSlot, is_throttled}
use thttpd_rs.Throttle.{add_bytes, fair_share_for}
use thttpd_rs.Watch.{conn_token}
use thttpd_rs.Loop.{
  Env, Shared, After, nanos, PollCall, register, reregister, deregister, writable, polled,
  with_table, close_connection, transition_to_lingering,
}

-- `as usize` of an `i64`
abbrev pub to_usize : ℤ → ℕ
to_usize (pos n) = n
to_usize (negsuc n) = 2 ^ 64 - 1 - n

-- What `stream.write` answers: a number of bytes, that it would block, or another error.
pub data Written : Type 0 where
  wrote : ℕ → Written
  would_block failed : Written

-- The whole seconds since the transfer began, one at least.
unfoldable pub elapsed_secs : ℕ → Option ℕ → ℕ
elapsed_secs now none = 1
elapsed_secs now (some t) = max ((now - t) / nanos) 1

-- The body bytes that the time passed allows beyond those sent.
unfoldable pub allowed_body_bytes : ℕ → ConnThrottle → ℤ
unfolding elapsed_secs
allowed_body_bytes now t =
    max_ℤ (t.max_limit *ℤ pos (elapsed_secs now t.started_at) -ℤ t.body_bytes) (pos 0)

unfoldable pub remaining_header_bytes : ConnSlot → ℤ
remaining_header_bytes slot = max_ℤ (pos slot.throttle.header_len -ℤ slot.http.bytes_sent) (pos 0)

unfoldable pub write_limit : ℕ → ConnSlot → ℕ
unfolding allowed_body_bytes remaining_header_bytes
write_limit now slot =
    if is_throttled slot.throttle && ltb_ℤ (pos 0) slot.throttle.max_limit
    then to_usize (remaining_header_bytes slot) + to_usize (allowed_body_bytes now slot.throttle)
    else to_usize (pos slot.http.response_len -ℤ slot.http.bytes_sent)

unfoldable pub paused : ℕ → ConnSlot → Shared → After
unfolding polled
paused now slot sh =
    let slot1 = record slot {
      state = pausing;
      throttle = record slot.throttle { pause_until = some (now + nanos) };
    } in
    (some slot1, polled slot1 deregister sh)

-- The body bytes among those of a write.
unfoldable pub body_delta : ConnSlot → ℤ → ℤ → ℤ
body_delta slot before after =
    let header_len = pos slot.throttle.header_len in
    max_ℤ (after -ℤ header_len) (pos 0) -ℤ max_ℤ (before -ℤ header_len) (pos 0)

-- The body bytes are charged to the entries of the connection.
unfoldable pub charged : ℕ → ℤ → ConnSlot → Shared → ConnSlot × Shared
unfolding with_table
charged now delta slot sh =
    if is_throttled slot.throttle && ltb_ℤ (pos 0) delta
    then (
      record slot {
        throttle = record slot.throttle {
          body_bytes = slot.throttle.body_bytes +ℤ delta;
          active_at = some now;
        };
      },
      with_table (add_bytes slot.throttle.tnums delta) sh,
    )
    else (slot, sh)

-- What follows a write of `n` bytes.
unfoldable pub after_write : ℕ → ℕ → ℕ → ConnSlot → Shared → After
unfolding body_delta charged transition_to_lingering polled
after_write now key n slot sh =
    let before = slot.http.bytes_sent in
    let after = before +ℤ pos n in
    let slot1 = record slot { http = record slot.http { bytes_sent = after } } in
    let sh1 = record sh { bytes_sent = sh.bytes_sent + n } in
    let (slot2, sh2) = charged now (body_delta slot before after) slot1 sh1 in
    if ltb_ℤ slot2.http.bytes_sent (pos slot2.http.response_len)
    then (some slot2, polled slot2 (λ stream. reregister stream (conn_token key) writable) sh2)
    else transition_to_lingering key slot2 sh2

-- What follows the answer of the stream.
unfoldable pub answered : Written → Env → ℕ → ℕ → ConnSlot → Shared → Option After
unfolding close_connection after_write
answered (wrote n) env now key slot sh = some (after_write now key n slot sh)
answered would_block env now key slot sh = some (some slot, sh)
answered failed env now key slot sh = some (close_connection env slot sh)

-- The write of what is left of the response, cut at the limit.
unfoldable pub write_some : Env → ℕ → ℕ → (ℕ → Written) → ConnSlot → Shared → Option After
unfolding close_connection answered write_limit
write_some env now key write slot sh = elim slot.stream [
  | none ↦ some (close_connection env slot sh)
  | some _ ↦
      let start = to_usize slot.http.bytes_sent in
      let rest = length slot.http.response - start in
      if ltb (length slot.http.response) start
      then none
      else answered (write (min (write_limit now slot) rest)) env now key slot sh
]

-- `write` is the answer of the stream to a slice of a length.
unfoldable pub handle_send : Env → ℕ → ℕ → (ℕ → Written) → ConnSlot → Shared → Option After
unfolding transition_to_lingering paused write_some write_limit
handle_send env now key write slot sh =
    if not (ltb_ℤ slot.http.bytes_sent (pos slot.http.response_len))
    then some (transition_to_lingering key slot sh)
    else if write_limit now slot == 0
    then some (paused now slot sh)
    else write_some env now key write slot sh

-- A pause whose time has not come.
unfoldable pub still_paused : ℕ → ConnSlot → Bool
still_paused now slot = elim slot.throttle.pause_until [ none ↦ false | some t ↦ ltb now t ]

-- The slot that goes on, with its share as it is now.
unfoldable pub resumed : ConnSlot → Shared → ConnSlot
resumed slot sh =
    let share : ℤ = elim sh.throttles [
      | none ↦ slot.throttle.max_limit
      | some es ↦ fair_share_for es slot.throttle.tnums
    ] in
    record slot {
      state = sending;
      throttle = record slot.throttle { max_limit = share; pause_until = none };
    }

unfoldable pub handle_pause : Env → ℕ → ℕ → (ℕ → Written) → ConnSlot → Shared → Option After
unfolding still_paused resumed close_connection handle_send
handle_pause env now key write slot sh =
    let slot1 = resumed slot sh in
    if still_paused now slot then some (some slot, sh) else elim slot1.stream [
      | none ↦ some (close_connection env slot1 sh)
      | some stream ↦
          handle_send env now key write slot1
            (record sh { polls = register stream (conn_token key) writable ∷ sh.polls })
    ]

-- Whatever the last read gives, the connection closes.
unfoldable pub handle_linger : Env → ConnSlot → Shared → After
unfolding close_connection
handle_linger env slot sh = close_connection env slot sh
