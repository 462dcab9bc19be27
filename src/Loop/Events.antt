-- ===== src/Loop/Events.antt =====
-- rust/crates/thttpd-core/src/eventloop.rs: the dispatch of an event, the deadlines that bound the
-- poll, and the paused connections that go on.
pub mod Diagram
pub mod Sent
pub mod Begun
pub mod Phases
use thttpd_rs.Base.{
  ℕ, ◌+◌, ◌-◌, Bool, true, false, ◌&&◌, Option, none, some, List, [], ◌∷◌, ◌++◌, if◌then◌else◌,
  ◌==◌, ltb, leb, min, ◌*◌,
}
use thttpd_rs.Base.Int.{ℤ}
use thttpd_rs.Conn.{ConnState, free, reading, sending, pausing, lingering}
use thttpd_rs.Slot.{ConnThrottle, ConnSlot, is_throttled}
use thttpd_rs.Throttle.{update_averages, fair_share_for}
use thttpd_rs.Watch.{conn_token}
use thttpd_rs.Loop.{Env, Shared, After, nanos, PollCall, register, writable, polled, with_table}
use thttpd_rs.Loop.Send.{Written, handle_send, handle_pause, handle_linger, resumed}
use thttpd_rs.Loop.Request.{Stages, answer_error, located, routed, started_request, process_request}
use thttpd_rs.Loop.Read.{Received, handle_read}
use thttpd_rs.Loop.Accept.{Conns}

pub record Server : Type 0 where
  pub conns : Conns
  pub shared : Shared

unfoldable pub find_slot : ℕ → Conns → Option ConnSlot
find_slot key [] = none
find_slot key ((k, slot) ∷ rest) = if k == key then some slot else find_slot key rest

-- The slot of a key is put back as a handler left it, or removed.
unfoldable pub put_slot : ℕ → Option ConnSlot → Conns → Conns
put_slot key after [] = []
put_slot key none ((k, slot) ∷ rest) = if k == key then rest else (k, slot) ∷ put_slot key none rest
put_slot key (some new) ((k, slot) ∷ rest) =
    if k == key then (k, new) ∷ rest else (k, slot) ∷ put_slot key (some new) rest

-- What the sockets and the clock give to one event.
pub record Event : Type 0 where
  pub now : ℕ
  pub read : ℕ → Received
  pub write : ℕ → Written

-- The handler of a state.
unfoldable pub handle_state :
    ConnState → Env → Stages → ℕ → Event → ConnSlot → Shared → Option After
unfolding handle_read handle_send handle_pause handle_linger
handle_state reading env stages key ev slot sh = handle_read env ev.now key ev.read stages slot sh
handle_state sending env stages key ev slot sh = handle_send env ev.now key ev.write slot sh
handle_state lingering env stages key ev slot sh = some (handle_linger env slot sh)
handle_state pausing env stages key ev slot sh = handle_pause env ev.now key ev.write slot sh
handle_state free env stages key ev slot sh = some (some slot, sh)

unfoldable pub handle_slot : Env → Stages → ℕ → Event → ConnSlot → Shared → Option After
unfolding handle_state
handle_slot env stages key ev slot sh = handle_state slot.state env stages key ev slot sh

unfoldable pub stored : ℕ → Option After → Server → Option Server
unfolding put_slot
stored key none server = none
stored key (some (after, sh)) server =
    some (record { conns = put_slot key after server.conns; shared = sh })

unfoldable pub handle_connection_event : Env → Stages → ℕ → Event → Server → Option Server
unfolding find_slot handle_slot stored
handle_connection_event env stages key ev server = elim (find_slot key server.conns) [
  | none ↦ some server
  | some slot ↦ stored key (handle_slot env stages key ev slot server.shared) server
]

abbrev pub is_pausing : ConnState → Bool
is_pausing pausing = true
is_pausing _ = false

unfoldable pub min_option : Option ℕ → Option ℕ → Option ℕ
min_option none b = b
min_option (some a) none = some a
min_option (some a) (some b) = some (min a b)

unfoldable pub next_pause_deadline : ℕ → Conns → Option ℕ
unfolding min_option
next_pause_deadline now [] = none
next_pause_deadline now ((_, slot) ∷ rest) =
    let later = next_pause_deadline now rest in
    if is_pausing slot.state
    then elim slot.throttle.pause_until [
      | none ↦ later
      | some t ↦ min_option (some (t - now)) later
    ]
    else later

unfoldable pub next_throttle_deadline : ℕ → ℕ → Shared → Option ℕ
next_throttle_deadline now last_update sh = elim sh.throttles [
  | none ↦ none
  | some _ ↦ some (2 * nanos - (now - last_update))
]

unfoldable pub is_ready : ℕ → ConnSlot → Bool
is_ready now slot =
    is_pausing slot.state && elim slot.throttle.pause_until [ none ↦ true | some t ↦ leb t now ]

unfoldable pub ready_keys : ℕ → Conns → List ℕ
unfolding is_ready
ready_keys now [] = []
ready_keys now ((k, slot) ∷ rest) =
    let later = ready_keys now rest in if is_ready now slot then k ∷ later else later

-- The loop over the keys that were ready at `now`; each slot is looked at again.
unfoldable pub resume_keys : Env → ℕ → (ℕ → Written) → List ℕ → Server → Option Server
unfolding find_slot handle_pause stored
resume_keys env now write [] server = some server
resume_keys env now write (key ∷ keys) server = elim (find_slot key server.conns) [
  | none ↦ resume_keys env now write keys server
  | some slot ↦
      if is_pausing slot.state
      then elim (stored key (handle_pause env now key write slot server.shared) server) [
        | none ↦ none
        | some server1 ↦ resume_keys env now write keys server1
      ]
      else resume_keys env now write keys server
]

unfoldable pub resume_ready_paused_connections : Env → ℕ → (ℕ → Written) → Server → Option Server
unfolding ready_keys resume_keys
resume_ready_paused_connections env now write server =
    resume_keys env now write (ready_keys now server.conns) server

-- A paused and throttled slot whose time has come goes on at the update of the averages.
unfoldable pub woken : ℕ → ConnSlot → Shared → Bool
woken now slot sh =
    is_pausing slot.state
    && is_throttled slot.throttle
    && elim slot.throttle.pause_until [ none ↦ false | some t ↦ leb t now ]

unfoldable pub wake_slots : ℕ → Conns → Shared → Conns × Shared
unfolding woken resumed polled
wake_slots now [] sh = ([], sh)
wake_slots now ((k, slot) ∷ rest) sh =
    let slot1 = resumed slot sh in
    let sh1 = polled slot1 (λ stream. register stream (conn_token k) writable) sh in
    let (rest1, sh2) = wake_slots now rest sh1 in
    let (rest3, sh3) = wake_slots now rest sh in
    if woken now slot sh then ((k, slot1) ∷ rest1, sh2) else ((k, slot) ∷ rest3, sh3)

-- The periodic update, with the time of the last one.
unfoldable pub update_throttles : ℕ → ℕ → Server → Server × ℕ
unfolding wake_slots with_table
update_throttles now last_update server =
    if leb (2 * nanos) (now - last_update)
    then (let (conns, sh) =
          wake_slots now server.conns (with_table update_averages server.shared) in
        (record { conns = conns; shared = sh }, now))
    else (server, last_update)
