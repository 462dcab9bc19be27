-- ===== src/Loop/Owed/Life.antt =====
-- rust/crates/thttpd-core/src/eventloop.rs: a connection from the answer to its end.
use thttpd_rs.Base.{ap, ◌≢◌, ℕ, ◌≡◌, refl, subst, Option, none, some, List, [], ◌∷◌, All}
use thttpd_rs.Base.Int.{ℤ}
use thttpd_rs.Conn.{reading}
use thttpd_rs.Slot.{ConnSlot}
use thttpd_rs.Throttle.{Table}
use thttpd_rs.Throttle.Walk.{Countable}
use thttpd_rs.Loop.{Env, Shared, After, transition_to_sending}
use thttpd_rs.Loop.Request.{Stages}
use thttpd_rs.Loop.Events.{Event, handle_slot}
use thttpd_rs.Loop.Events.Diagram.{phase, transition_to_sending-phase}
use thttpd_rs.Loop.Events.Phases.{handle_slot-departed}
use thttpd_rs.Loop.Owed.{senders, owed}
use thttpd_rs.Loop.Owed.Steps.{Owes, handle_state-Owes, IsNew, transition_to_sending-owed}

-- The events of one connection, in their order; those after its end find no slot.
unfoldable pub later : Env → Stages → ℕ → List Event → After → Option After
unfolding handle_slot
later env stages key [] after = some after
later env stages key (ev ∷ evs) (none, sh) = some (none, sh)
later env stages key (ev ∷ evs) (some slot, sh) = elim (handle_slot env stages key ev slot sh) [
  | none ↦ none
  | some after ↦ later env stages key evs after
]

handle_slot-Owes :
    (env : Env) (stages : Stages) (key : ℕ) (ev : Event) (slot : ConnSlot) (sh : Shared)
    → slot.state ≢ reading
    → Owes (owed (some slot, sh)) (handle_slot env stages key ev slot sh)
unfolding handle_slot
handle_slot-Owes env stages key ev slot sh h =
    handle_state-Owes slot.state env stages key ev slot sh h

pub then-Owes :
    (env : Env) (stages : Stages) (key : ℕ) (evs : List Event) (ns : List ℤ) (r : Option After)
    → Owes ns r
    → ((after : After) → r ≡ some after → Owes (owed after) (later env stages key evs after))
    → Owes ns (elim r [ none ↦ none | some after ↦ later env stages key evs after ])
then-Owes env stages key evs ns none h f = tt
then-Owes env stages key evs ns (some after) h f =
    subst (λ x. Owes x (later env stages key evs after)) h (f after refl)

pub later-Owes :
    (env : Env) (stages : Stages) (key : ℕ) (evs : List Event) (after : After)
    → phase after ≢ some reading
    → Owes (owed after) (later env stages key evs after)
unfolding later
later-Owes env stages key [] after d = refl
later-Owes env stages key (ev ∷ evs) (none, sh) d = refl
later-Owes env stages key (ev ∷ evs) (some slot, sh) d =
    let departed : slot.state ≢ reading = λ e. d (ap some e) in
    then-Owes env stages key evs (owed (some slot, sh)) (handle_slot env stages key ev slot sh)
      (handle_slot-Owes env stages key ev slot sh departed)
      (λ after e.
        later-Owes env stages key evs after
          (handle_slot-departed env stages key ev slot sh after departed e))

-- A connection that is new to the table, no script's, and begins to send, in a server with a table whose
-- counts of senders are no negative numbers and can go up by one: whatever events follow, as long as
-- none panics, closing the connection then gives each entry the count of senders that it had before the
-- request; and where the connection is closed already, the entries have these counts.
pub later-senders :
    (env : Env) (stages : Stages) (now key : ℕ) (evs : List Event) (slot : ConnSlot) (sh : Shared)
    (es : Table)
    → IsNew slot
    → sh.throttles ≡ some es
    → All Countable es
    → Owes (senders es) (later env stages key evs (transition_to_sending env now key slot sh))
later-senders env stages now key evs slot sh es h t c =
    let after = transition_to_sending env now key slot sh in
    subst (λ x. Owes x (later env stages key evs after))
      (transition_to_sending-owed env now key slot sh es h t c)
      (later-Owes env stages key evs after
        (rw (transition_to_sending-phase env now key slot sh) (λ e. cc)))
