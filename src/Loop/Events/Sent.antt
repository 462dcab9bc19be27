-- ===== src/Loop/Events/Sent.antt =====
-- rust/crates/thttpd-core/src/eventloop.rs: where a slot that sends or pauses goes.
use thttpd_rs.Base.{ℕ, Option, none, some, ◌≡◌, refl}
use thttpd_rs.Base.{arith}
use thttpd_rs.Base.Int.{ℤ}
use thttpd_rs.Conn.{ConnState, sending, pausing, lingering}
use thttpd_rs.Slot.{ConnSlot}
use thttpd_rs.Loop.{Env, Shared, After, close_connection, transition_to_lingering}
use thttpd_rs.Loop.Send.{
  resumed, Written, paused, charged, after_write, write_some, handle_send, handle_pause,
}
use thttpd_rs.Loop.Events.Diagram.{
  ◌⟶◌, go_on, pause, finish, break_off, stay, resume, resume_finish, resume_break_off, phase,
}

-- What handling a slot that sends can give.
pub data Sent : Option ConnState → Type 0 where
  more : Sent (some sending)
  rest : Sent (some pausing)
  done : Sent (some lingering)
  gone : Sent none

charged-state :
    (now : ℕ) (delta : ℤ) (slot : ConnSlot) (sh : Shared)
    → (charged now delta slot sh).0.state ≡ slot.state
unfolding charged
charged-state now delta slot sh = ground arith

ruleset sent = (more, rest, done, gone)

after_write-Sent :
    (now key n : ℕ) (slot : ConnSlot) (sh : Shared)
    → slot.state ≡ sending
    → Sent (phase (after_write now key n slot sh))
unfolding after_write transition_to_lingering
after_write-Sent now key n slot sh h = grind (arith, sent, charged-state)

write_some-Sent :
    (env : Env) (now key : ℕ) (write : ℕ → Written) (slot : ConnSlot) (sh : Shared) (after : After)
    → slot.state ≡ sending
    → write_some env now key write slot sh ≡ some after
    → Sent (phase after)
unfolding write_some close_connection
write_some-Sent env now key write slot sh after h e =
    let step = λ (n : ℕ). after_write-Sent now key n slot sh h in grind (arith, more, gone)

pub handle_send-Sent :
    (env : Env) (now key : ℕ) (write : ℕ → Written) (slot : ConnSlot) (sh : Shared) (after : After)
    → slot.state ≡ sending
    → handle_send env now key write slot sh ≡ some after
    → Sent (phase after)
unfolding handle_send transition_to_lingering paused
handle_send-Sent env now key write slot sh after h e = grind (arith, sent, write_some-Sent)

-- what the handler of a slot that sends can give, as an edge
pub Sent-⟶ : (to : Option ConnState) → Sent to → sending ⟶ to
Sent-⟶ _ more = go_on
Sent-⟶ _ rest = pause
Sent-⟶ _ done = finish
Sent-⟶ _ gone = break_off

Sent-resumed : (to : Option ConnState) → Sent to → pausing ⟶ to
Sent-resumed _ more = resume
Sent-resumed _ rest = stay
Sent-resumed _ done = resume_finish
Sent-resumed _ gone = resume_break_off

pub handle_pause-⟶ :
    (env : Env) (now key : ℕ) (write : ℕ → Written) (slot : ConnSlot) (sh : Shared) (after : After)
    → slot.state ≡ pausing
    → handle_pause env now key write slot sh ≡ some after
    → pausing ⟶ phase after
unfolding handle_pause close_connection resumed
handle_pause-⟶ env now key write slot sh after h e =
    let again = λ (sh1 : Shared).
      λ (e1 : handle_send env now key write (resumed slot sh) sh1 ≡ some after).
        Sent-resumed (phase after)
          (handle_send-Sent env now key write (resumed slot sh) sh1 after refl e1) in
    grind (arith, stay, resume_break_off)
