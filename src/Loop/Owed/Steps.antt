-- ===== src/Loop/Owed/Steps.antt =====
-- rust/crates/thttpd-core/src/eventloop.rs: what the handlers do to the counts of senders.
use thttpd_rs.Base.{
  subst, ◌≢◌, arith, ℕ, ◌+◌, ◌==◌, ◌≡◌, refl, sym, ap, ◌∙◌, Bool, true, false, not, Option, none,
  some, List, [], All, if◌then◌else◌,
}
use thttpd_rs.Base.Int.{ℤ, pos, ◌+ℤ◌, ltb_ℤ}
use thttpd_rs.Conn.{ConnState, free, reading, sending, pausing, lingering}
use thttpd_rs.Loop.Request.{Stages}
use thttpd_rs.Loop.Events.{Event, handle_state}
use thttpd_rs.Slot.{ConnSlot, is_throttled}
use thttpd_rs.Throttle.{Table, ThrottleDecision, unlimited, reject, allow, check_request, clear}
use thttpd_rs.Throttle.Walk.{Countable, Balanced, check_request-Balanced}
use thttpd_rs.Watch.{conn_token}
use thttpd_rs.Loop.{
  deregister, Env, Shared, After, PollCall, reregister, writable, polled, logged, released,
  close_connection, transition_to_lingering, transition_to_sending, with_table, throttle_match_path,
  begun, decided_slot, admission, with_header_len, started, unavailable,
}
use thttpd_rs.Loop.Send.{
  Written, wrote, would_block, failed, paused, write_limit, charged, body_delta, after_write,
  answered, write_some, handle_send, resumed, handle_pause, handle_linger,
}
use thttpd_rs.Loop.Owed.{senders, senders_without, owed, owed-add_bytes}

pub polled-throttles :
    (slot : ConnSlot) (call : ℕ → PollCall) (sh : Shared)
    → (polled slot call sh).throttles ≡ sh.throttles
unfolding polled
polled-throttles slot call sh = ground arith

logged-throttles :
    (env : Env) (slot : ConnSlot) (sh : Shared) → (logged env slot sh).throttles ≡ sh.throttles
unfolding logged
logged-throttles env slot sh = ground arith

released_table : List ℕ → Option Table → Option Table
released_table ts none = none
released_table ts (some es) = some (clear ts es)

released-throttles :
    (slot : ConnSlot) (sh : Shared)
    → (released slot sh).throttles ≡ released_table slot.throttle.tnums sh.throttles
unfolding released with_table released_table is_throttled clear
released-throttles slot sh = ground arith

without-released :
    (ts : List ℕ) (t : Option Table)
    → senders_without [] (released_table ts t) ≡ senders_without ts t
unfolding released_table clear
without-released ts none = refl
without-released ts (some es) = refl

close_connection-owed :
    (env : Env) (slot : ConnSlot) (sh : Shared)
    → owed (close_connection env slot sh) ≡ owed (some slot, sh)
unfolding close_connection
close_connection-owed env slot sh =
    ap (senders_without []) (polled-throttles slot deregister (released slot (logged env slot sh)))
    ∙ (ap (senders_without []) (
          released-throttles slot (logged env slot sh)
          ∙ ap (released_table slot.throttle.tnums) (logged-throttles env slot sh))
        ∙ without-released slot.throttle.tnums sh.throttles)

transition_to_lingering-owed :
    (key : ℕ) (slot : ConnSlot) (sh : Shared)
    → owed (transition_to_lingering key slot sh) ≡ owed (some slot, sh)
unfolding transition_to_lingering
transition_to_lingering-owed key slot sh =
    ap (senders_without slot.throttle.tnums) (polled-throttles slot _ _)

paused-owed :
    (now : ℕ) (slot : ConnSlot) (sh : Shared) → owed (paused now slot sh) ≡ owed (some slot, sh)
unfolding paused
paused-owed now slot sh = grind (arith, polled-throttles)

charged-owed :
    (now : ℕ) (delta : ℤ) (slot : ConnSlot) (sh : Shared)
    → owed (some (charged now delta slot sh).0, (charged now delta slot sh).1)
      ≡ owed (some slot, sh)
unfolding charged with_table
charged-owed now delta slot sh = grind (arith, owed-add_bytes)

settled-owed :
    (left : Bool) (key : ℕ) (slot : ConnSlot) (sh : Shared)
    → owed (
        if left
        then (some slot, polled slot (λ stream. reregister stream (conn_token key) writable) sh)
        else transition_to_lingering key slot sh)
      ≡ owed (some slot, sh)
settled-owed true key slot sh =
    ap (senders_without slot.throttle.tnums)
      (polled-throttles slot (λ stream. reregister stream (conn_token key) writable) sh)
settled-owed false key slot sh = transition_to_lingering-owed key slot sh

after_write-owed :
    (now key n : ℕ) (slot : ConnSlot) (sh : Shared)
    → owed (after_write now key n slot sh) ≡ owed (some slot, sh)
unfolding after_write
after_write-owed now key n slot sh =
    let before = slot.http.bytes_sent in
    let slot1 = record slot { http = record slot.http { bytes_sent = before +ℤ pos n } } in
    let sh1 = record sh { bytes_sent = sh.bytes_sent + n } in
    let delta = body_delta slot before (before +ℤ pos n) in
    let r = charged now delta slot1 sh1 in
    settled-owed (ltb_ℤ r.0.http.bytes_sent (pos r.0.http.response_len)) key r.0 r.1
    ∙ charged-owed now delta slot1 sh1

-- What a handler leaves owed, if it does not panic.
abbrev pub Owes : List ℤ → Option After → Type 0
Owes ns none = Unit
Owes ns (some after) = owed after ≡ ns

answered-Owes :
    (w : Written) (env : Env) (now key : ℕ) (slot : ConnSlot) (sh : Shared)
    → Owes (owed (some slot, sh)) (answered w env now key slot sh)
unfolding answered
answered-Owes (wrote n) env now key slot sh = after_write-owed now key n slot sh
answered-Owes would_block env now key slot sh = refl
answered-Owes failed env now key slot sh = close_connection-owed env slot sh

write_some-Owes :
    (env : Env) (now key : ℕ) (write : ℕ → Written) (slot : ConnSlot) (sh : Shared)
    → Owes (owed (some slot, sh)) (write_some env now key write slot sh)
unfolding write_some
write_some-Owes env now key write slot sh =
    let close = close_connection-owed env slot sh in
    let step = λ (n : ℕ). answered-Owes (write n) env now key slot sh in grind arith

if-Owes :
    (ns : List ℤ) (test : Bool) (a b : Option After)
    → Owes ns a
    → Owes ns b
    → Owes ns (if test then a else b)
if-Owes ns true a b h k = h
if-Owes ns false a b h k = k

handle_send-Owes :
    (env : Env) (now key : ℕ) (write : ℕ → Written) (slot : ConnSlot) (sh : Shared)
    → Owes (owed (some slot, sh)) (handle_send env now key write slot sh)
unfolding handle_send
handle_send-Owes env now key write slot sh =
    if-Owes (owed (some slot, sh)) (not (ltb_ℤ slot.http.bytes_sent (pos slot.http.response_len)))
      (some (transition_to_lingering key slot sh))
      (if write_limit now slot == 0
        then some (paused now slot sh)
        else write_some env now key write slot sh)
      (transition_to_lingering-owed key slot sh)
      (if-Owes (owed (some slot, sh)) (write_limit now slot == 0) (some (paused now slot sh))
        (write_some env now key write slot sh) (paused-owed now slot sh)
        (write_some-Owes env now key write slot sh))

handle_pause-Owes :
    (env : Env) (now key : ℕ) (write : ℕ → Written) (slot : ConnSlot) (sh : Shared)
    → Owes (owed (some slot, sh)) (handle_pause env now key write slot sh)
unfolding handle_pause resumed
handle_pause-Owes env now key write slot sh =
    let slot1 = resumed slot sh in
    let close = close_connection-owed env slot1 sh in
    let step = λ (sh1 : Shared). handle_send-Owes env now key write slot1 sh1 in grind arith

-- A slot that does not read is handled without a change of what is owed.
pub handle_state-Owes :
    (state : ConnState) (env : Env) (stages : Stages) (key : ℕ) (ev : Event) (slot : ConnSlot)
    (sh : Shared)
    → state ≢ reading
    → Owes (owed (some slot, sh)) (handle_state state env stages key ev slot sh)
unfolding handle_state handle_linger
handle_state-Owes reading env stages key ev slot sh h = absurd (h refl)
handle_state-Owes sending env stages key ev slot sh h =
    handle_send-Owes env ev.now key ev.write slot sh
handle_state-Owes pausing env stages key ev slot sh h =
    handle_pause-Owes env ev.now key ev.write slot sh
handle_state-Owes lingering env stages key ev slot sh h = close_connection-owed env slot sh
handle_state-Owes free env stages key ev slot sh h = refl

decided-owed :
    (env : Env) (now : ℕ) (d : ThrottleDecision) (slot : ConnSlot) (es after : Table)
    → slot.throttle.tnums ≡ []
    → Balanced es (after, d)
    → senders_without (decided_slot env now d slot).throttle.tnums (some after) ≡ senders es
unfolding decided_slot unavailable started clear
decided-owed env now unlimited slot es after h b = rw h (ap senders b)
decided-owed env now reject slot es after h b = rw h (ap senders b)
decided-owed env now (allow tnums most least) slot es after h b = ap senders b

pub begun-tnums :
    (now : ℕ) (slot : ConnSlot) → (begun now slot).throttle.tnums ≡ slot.throttle.tnums
unfolding begun started
begun-tnums now slot = ground arith

pub with_header_len-throttle : (slot : ConnSlot) → (with_header_len slot).throttle ≡ slot.throttle
unfolding with_header_len
with_header_len-throttle slot = ground arith

with_header_len-is_cgi : (slot : ConnSlot) → (with_header_len slot).is_cgi ≡ slot.is_cgi
unfolding with_header_len
with_header_len-is_cgi slot = ground arith

-- A slot that is new to the table, and no script's.
pub record IsNew (slot : ConnSlot) : Type 0 where
  pub own : slot.is_cgi ≡ false
  pub unchecked : slot.throttle.checked ≡ false
  pub unheld : slot.throttle.tnums ≡ []

admission-new :
    (slot : ConnSlot) (sh : Shared) (es : Table)
    → slot.is_cgi ≡ false
    → slot.throttle.checked ≡ false
    → sh.throttles ≡ some es
    → admission slot sh ≡ (
      record sh {
        throttles = some (check_request (throttle_match_path slot.http.orig_filename) es).0;
      },
      (check_request (throttle_match_path slot.http.orig_filename) es).1,
    )
unfolding admission
admission-new slot sh es a b t = rw (a, b, t) refl

-- the parts of a slot that begins to send
sending-owed :
    (env : Env) (now key : ℕ) (slot : ConnSlot) (sh : Shared) (es : Table)
    (r : Shared × ThrottleDecision) (after : Table)
    → slot.throttle.tnums ≡ []
    → r.0.throttles ≡ some after
    → Balanced es (after, r.1)
    → senders_without
        (decided_slot env now r.1 slot).throttle.tnums
        (polled
          (decided_slot env now r.1 slot)
          (λ stream. reregister stream (conn_token key) writable)
          r.0).throttles
      ≡ senders es
sending-owed env now key slot sh es r after h t b =
    ap (senders_without (decided_slot env now r.1 slot).throttle.tnums) (
      polled-throttles (decided_slot env now r.1 slot)
        (λ stream. reregister stream (conn_token key) writable) r.0
      ∙ t)
    ∙ decided-owed env now r.1 slot es after h b

pub transition_to_sending-owed :
    (env : Env) (now key : ℕ) (slot : ConnSlot) (sh : Shared) (es : Table)
    → IsNew slot
    → sh.throttles ≡ some es
    → All Countable es
    → owed (transition_to_sending env now key slot sh) ≡ senders es
unfolding transition_to_sending admission
transition_to_sending-owed env now key slot sh es h t c =
    let s0 = with_header_len slot in
    let decided = check_request (throttle_match_path s0.http.orig_filename) es in
    let admitted =
      admission-new s0 sh es (with_header_len-is_cgi slot ∙ h.own)
        (ap (λ x. x.checked) (with_header_len-throttle slot) ∙ h.unchecked) t in
    sending-owed env now key (begun now s0) sh es (admission s0 sh) decided.0
      (begun-tnums now s0 ∙ (ap (λ x. x.tnums) (with_header_len-throttle slot) ∙ h.unheld))
      (ap (λ x. x.0.throttles) admitted)
      (subst (λ x. Balanced es (decided.0, x)) (sym (ap (λ x. x.1) admitted))
        (check_request-Balanced (throttle_match_path s0.http.orig_filename) es c))
