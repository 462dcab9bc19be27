-- ===== src/Loop/Events/Phases.antt =====
-- rust/crates/thttpd-core/src/eventloop.rs: the states that a connection goes through.
use thttpd_rs.Base.{subst, ◌≢◌, ℕ, Option, some, ◌≡◌, refl}
use thttpd_rs.Base.{arith}
use thttpd_rs.Conn.{ConnState, free, reading, sending, pausing, lingering}
use thttpd_rs.Slot.{ConnSlot}
use thttpd_rs.Loop.{Env, Shared, After, close_connection}
use thttpd_rs.Loop.Request.{Stages}
use thttpd_rs.Loop.Events.{Event, handle_state, handle_slot}
use thttpd_rs.Loop.Send.{handle_linger}
use thttpd_rs.Loop.Events.Diagram.{◌⟶◌, idle, wait, end, phase, MayLead}
use thttpd_rs.Loop.Events.Sent.{Sent-⟶, handle_send-Sent, handle_pause-⟶}
use thttpd_rs.Loop.Events.Begun.{Follow, handle_read-MayLead}

unread :
    (to : Option ConnState) (from : ConnState) → from ≢ reading → to ≡ some reading → from ⟶ to → ⊥
unread _ _ d k wait = d refl
unread _ _ d k idle = cc
unread _ _ d k _ = cc

departed-⟶ :
    (state : ConnState) (env : Env) (stages : Stages) (key : ℕ) (ev : Event) (slot : ConnSlot)
    (sh : Shared) (after : After)
    → state ≢ reading
    → slot.state ≡ state
    → handle_state state env stages key ev slot sh ≡ some after
    → state ⟶ phase after
unfolding handle_state handle_linger close_connection
departed-⟶ reading env stages key ev slot sh after d h e = absurd (d refl)
departed-⟶ sending env stages key ev slot sh after d h e =
    Sent-⟶ (phase after) (handle_send-Sent env ev.now key ev.write slot sh after h e)
departed-⟶ pausing env stages key ev slot sh after d h e =
    handle_pause-⟶ env ev.now key ev.write slot sh after h e
departed-⟶ lingering env stages key ev slot sh after d h e = grind (arith, end)
departed-⟶ free env stages key ev slot sh after d h e = grind (arith, idle)

-- no slot goes back to reading
pub handle_slot-departed :
    (env : Env) (stages : Stages) (key : ℕ) (ev : Event) (slot : ConnSlot) (sh : Shared)
    (after : After)
    → slot.state ≢ reading
    → handle_slot env stages key ev slot sh ≡ some after
    → phase after ≢ some reading
unfolding handle_slot
handle_slot-departed env stages key ev slot sh after d e k =
    unread (phase after) slot.state d k
      (departed-⟶ slot.state env stages key ev slot sh after d refl e)

handle_state-⟶ :
    (state : ConnState) (env : Env) (stages : Stages) (key : ℕ) (ev : Event) (slot : ConnSlot)
    (sh : Shared) (after : After)
    → Follow stages
    → slot.state ≡ state
    → handle_state state env stages key ev slot sh ≡ some after
    → state ⟶ phase after
unfolding handle_state
handle_state-⟶ reading env stages key ev slot sh after f h e =
    subst (MayLead reading) e (handle_read-MayLead env ev.now key ev.read stages slot sh f h)
handle_state-⟶ sending env stages key ev slot sh after f h e =
    departed-⟶ sending env stages key ev slot sh after (λ q. cc) h e
handle_state-⟶ pausing env stages key ev slot sh after f h e =
    departed-⟶ pausing env stages key ev slot sh after (λ q. cc) h e
handle_state-⟶ lingering env stages key ev slot sh after f h e =
    departed-⟶ lingering env stages key ev slot sh after (λ q. cc) h e
handle_state-⟶ free env stages key ev slot sh after f h e =
    departed-⟶ free env stages key ev slot sh after (λ q. cc) h e

-- The handler of an event moves a slot along an edge of the diagram or takes it out of the table where
-- the diagram allows it, whatever the sockets answer, so far as it does not panic and the stages of a
-- complete request keep to the edges from `reading`: a lingering slot only closes, no slot goes back
-- to reading, and only sending and paused slots come to pause or to linger.
pub handle_slot-⟶ :
    (env : Env) (stages : Stages) (key : ℕ) (ev : Event) (slot : ConnSlot) (sh : Shared)
    (after : After)
    → Follow stages
    → handle_slot env stages key ev slot sh ≡ some after
    → slot.state ⟶ phase after
unfolding handle_slot
handle_slot-⟶ env stages key ev slot sh after f e =
    handle_state-⟶ slot.state env stages key ev slot sh after f refl e
