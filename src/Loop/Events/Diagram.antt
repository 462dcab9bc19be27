-- ===== src/Loop/Events/Diagram.antt =====
-- rust/crates/thttpd-core/src/eventloop.rs: the states that a connection goes through, and the one in which it
-- begins to send.
use thttpd_rs.Base.{ap, ◌∙◌, ℕ, Option, none, some, ◌≡◌, refl}
use thttpd_rs.Base.{arith}
use thttpd_rs.Conn.{ConnState, free, reading, sending, pausing, lingering}
use thttpd_rs.Slot.{ConnSlot}
use thttpd_rs.Throttle.{ThrottleDecision, unlimited, reject, allow}
use thttpd_rs.Loop.{
  Env, Shared, After, begun, decided_slot, admission, with_header_len, started, unavailable,
  transition_to_sending,
}

-- The diagram: from the state of a slot to the state it is left in, where `none` is a slot that is gone.
infix 40 ◌⟶◌
pub data ◌⟶◌ : ConnState → Option ConnState → Type 0 where
  idle : free ⟶ some free
  wait : reading ⟶ some reading
  answer : reading ⟶ some sending
  hang_up : reading ⟶ none
  go_on : sending ⟶ some sending
  pause : sending ⟶ some pausing
  finish : sending ⟶ some lingering
  break_off : sending ⟶ none
  stay : pausing ⟶ some pausing
  resume : pausing ⟶ some sending
  resume_finish : pausing ⟶ some lingering
  resume_break_off : pausing ⟶ none
  end : lingering ⟶ none

abbrev pub phase : After → Option ConnState
phase (none, sh) = none
phase (some slot, sh) = some slot.state

-- The edge of a handler that does not panic.
abbrev pub MayLead : ConnState → Option After → Type 0
MayLead from none = Unit
MayLead from (some after) = from ⟶ phase after

with_header_len-state : (slot : ConnSlot) → (with_header_len slot).state ≡ slot.state
unfolding with_header_len
with_header_len-state slot = ground arith

-- a slot begins to send, whatever the decision on it is
decided_slot-state :
    (env : Env) (now : ℕ) (d : ThrottleDecision) (slot : ConnSlot)
    → (decided_slot env now d slot).state ≡ slot.state
unfolding decided_slot unavailable started
decided_slot-state env now unlimited slot = refl
decided_slot-state env now reject slot = refl
decided_slot-state env now (allow tnums most least) slot = refl

begun-state : (now : ℕ) (slot : ConnSlot) → (begun now slot).state ≡ sending
unfolding begun started
begun-state now slot = ground arith

pub transition_to_sending-phase :
    (env : Env) (now key : ℕ) (slot : ConnSlot) (sh : Shared)
    → phase (transition_to_sending env now key slot sh) ≡ some sending
unfolding transition_to_sending
transition_to_sending-phase env now key slot sh =
    let r = admission (with_header_len slot) sh in
    let s = begun now (with_header_len slot) in
    ap some (decided_slot-state env now r.1 s ∙ begun-state now (with_header_len slot))
